-- ===== src/Lib.antt =====
-- The core of the Trifecta SDK, the driver library of the Trifecta IMU, AHRS and INS devices:
-- what becomes of the bytes that a device sends, up to the packet that a user reads, the commands
-- that the driver sends, and the saving and replay of packets.
--
-- Bytes from a serial port go into the device's byte buffer. fs_device_process_packets_serial looks for
-- delimiters in it and takes out frames ':' text '!' (Base64), frames '@' bytes '!' (binary) and
-- commands ending in ';'. Bytes from the network are packets one behind the other. Packets go into the
-- device's packet queue, and to the saver if one is attached; commands go into the command queue and
-- are obeyed. The user reads the last packet or the queue, and sends commands as texts ';' character
-- argument ';'.
--
-- Common: arithmetic of machine integers, lists as arrays, the positions of a ring.
-- RingBuffer: the macros of include/FS_Trifecta_Defs_Ringbuffer.h in their C form, and the bounded
--   queue that they refine; RingBuffer.Bytes: fs_cb_push, fs_cb_peek and fs_cb_pop of
--   include/FS_Trifecta_Device_Utils.h.
-- CString: fs_safe_strnlen and fs_safe_strncpy of include/FS_Trifecta_Defs.h.
-- Base64: fs_base64_encode and fs_base64_decode of common/FS_Trifecta_Device_Utils.c.
-- Packet: the packet structures of include/FS_Trifecta_Defs_Packets.h, obtain_packet_length, and the
--   readings of common/FS_Trifecta_Packet_Utils.c over a parameter for floats (Floats).
-- Device: the device handle of include/FS_Trifecta_Defs.h, fs_enqueue_into_packet_queue,
--   fs_save_on_packet of common/FS_Trifecta_Saver.c, and the readers of common/FS_Trifecta_Device.c
--   (Device.Queue for the packet queue, Device.Getters for the last packet).
-- Commands: fs_segment_commands and fs_handle_received_commands.
-- Delimiters: fs_scan_delimiters.
-- Segment: segment_packets and base64_to_packet.
-- Serial: fs_device_process_packets_serial and fs_device_parse_packet.
-- Link: the functions of include/FS_Trifecta_Interfaces.h, which each platform implements, as the record
--   Platform of functions over its world, and the two links over it: Link.Wired for
--   common/FS_Trifecta_Serial.c, Link.Network for common/FS_Trifecta_Networked.c, whose table of UDP
--   ports is Link.Ports; Link.Message has the texts of snprintf. Link.Updating is the serial updating
--   thread as a step relation that fs_serial_exit takes part in, Link.Listening the two network threads.
-- Driver: common/FS_Trifecta.c, start and end in Driver and the commands to a device in Driver.Commands.
-- Replay: common/FS_Trifecta_Replay.c, with fs_safe_fgets over a file as its bytes (Replay.Stream), the
--   header line (Replay.Header), a line of the table (Replay.Row), and the handle with its index of the
--   lines; strtof and strtod are a parameter, and so is whether malloc succeeds.
-- Saver: write_header, format_packet and the loop of save_thread_func in common/FS_Trifecta_Saver.c, with a file as its
--   bytes and printf's floats as a parameter.
--
-- State is passed explicitly: an operation takes the device or the ring and returns it with the value
-- that the C function returns, `negsuc n` for -(n + 1). An output variable is an argument with what it
-- held before, and memory is a list of bytes; a packet union is its bytes, of which a structure's
-- members are read at their offsets. Pointers that the callers check for NULL are taken to be valid,
-- and log lines are left out.
--
-- Fuel: fs_base64_decode gets 513 rounds, one more than the characters that it reads at most;
-- segment_packets 513 rounds, since each takes a byte at least of 512; the command loop 17 rounds, one
-- more than the queue holds; the serial loop 513 rounds, since each takes a byte at least out of the
-- buffer's 512; fs_replay_open one round more than the file has bytes; the saving loop 17 rounds. A
-- result without enough fuel is `none` or `out_of_fuel`.
--
-- The start of a link has the receive buffer as its 512 bytes, with the result of the read as a `size_t`;
-- it ends `overread` where bytes behind the buffer are read, and `stuck` where the command loop runs out
-- of fuel, which it does not for a valid command queue. The loops that wait for a device's name have ten tries, as in
-- the source. A network thread gets a number of passes of its loop, which stands for the time that it
-- has.
--
-- The interleaving of threads inside a ring buffer macro, the C++ form of the macros, the network
-- threads side by side, the search for devices, the switches of logging, and the names, opening and
-- closing of the saver's files are not modelled; the platforms' system calls and the bindings hold no
-- logic of the protocol, and the CRC functions are called nowhere.
pub mod Common
pub mod RingBuffer
pub mod CString
pub mod Base64
pub mod Floats
pub mod Packet
pub mod Device
pub mod Commands
pub mod Delimiters
pub mod Segment
pub mod Serial
pub mod Replay
pub mod Link
pub mod Driver
pub mod Saver
