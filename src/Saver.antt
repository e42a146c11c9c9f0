-- ===== src/Saver.antt =====
-- common/FS_Trifecta_Saver.c: the lines of a file of saved packets, and the pass of the saving thread that
-- writes them. printf's floats are a parameter.
pub mod Lines
pub mod Fields
pub mod Replayed
pub mod Draining
pub mod Received
mod Tests
use trifecta_sdk.Common.{
  ℕ, zero, suc, ◌+◌, ◌-◌, ◌*◌, ◌^◌, Bool, Option, none, some, List, [], ◌∷◌, ◌++◌, ltb, replicate,
  length, if◌then◌else◌,
}
use trifecta_sdk.Common.Int.{ℤ, pos, negsuc}
use trifecta_sdk.RingBuffer.{Ring, pop}
use trifecta_sdk.Packet.Member.{Layout, Field, offset_of}
use trifecta_sdk.Packet.Structs.{composite_packet, regular_packet, composite_packet_2}
use trifecta_sdk.Packet.{
  Packet, Family, composite, regular, composite2, family_of, packet_type, member, load,
}
use trifecta_sdk.Device.{max_packet_queue_length}
use trifecta_sdk.Link.Message.{decimal, printed}
use trifecta_sdk.Replay.Header.{codes}
use trifecta_sdk.Replay.Table.{joined}

-- printf's "%f", for the bits of a float, the bits of a double, and the float of an integer.
pub record Texts : Type 0 where
  pub float : ℕ → List ℕ
  pub double : ℕ → List ℕ
  pub integer : ℤ → List ℕ

-- `write_header`.
abbrev pub header : List ℕ
header =
    codes "PacketType,Time,"
    ++ (codes "Ax0,Ay0,Az0,Gx0,Gy0,Gz0,"
        ++ (codes "Ax1,Ay1,Az1,Gx1,Gy1,Gz1,"
            ++ (codes "Ax2,Ay2,Az2,Gx2,Gy2,Gz2,"
                ++ (codes "Q0,Q1,Q2,Q3,"
                    ++ (codes "MagX,MagY,MagZ,"
                        ++ (codes "OmegaX0,OmegaY0,OmegaZ0,"
                            ++ (codes "AccX,AccY,AccZ,"
                                ++ (codes "Vx,Vy,Vz,"
                                    ++ (codes "Rx,Ry,Rz,"
                                        ++ (codes "Temp_0,Temp_1,Temp_2,"
                                            ++ codes "DeviceMotionStatus\n"))))))))))

-- What stands in a column: nothing, a member of the packet, or one of the three temperatures.
pub data Column : Type 0 where
  blank motion : Column
  float_of double_of : Field → Column
  temperature_of : ℕ → Column

-- The columns Ax0 to Gz2.
abbrev pub raw : List Column
raw =
    float_of Field.ax0
    ∷ float_of Field.ay0
    ∷ float_of Field.az0
    ∷ float_of Field.gx0
    ∷ float_of Field.gy0
    ∷ float_of Field.gz0
    ∷ float_of Field.ax1
    ∷ float_of Field.ay1
    ∷ float_of Field.az1
    ∷ float_of Field.gx1
    ∷ float_of Field.gy1
    ∷ float_of Field.gz1
    ∷ float_of Field.ax2
    ∷ float_of Field.ay2
    ∷ float_of Field.az2
    ∷ float_of Field.gx2
    ∷ float_of Field.gy2
    ∷ float_of Field.gz2
    ∷ []

-- The columns Q0 to AccZ.
abbrev pub fused : List Column
fused =
    float_of Field.q0
    ∷ float_of Field.q1
    ∷ float_of Field.q2
    ∷ float_of Field.q3
    ∷ float_of Field.mag_x
    ∷ float_of Field.mag_y
    ∷ float_of Field.mag_z
    ∷ float_of Field.omega_x0
    ∷ float_of Field.omega_y0
    ∷ float_of Field.omega_z0
    ∷ float_of Field.acc_x
    ∷ float_of Field.acc_y
    ∷ float_of Field.acc_z
    ∷ []

-- The columns Vx to Rz.
abbrev pub moving : List Column
moving =
    float_of Field.vx
    ∷ float_of Field.vy
    ∷ float_of Field.vz
    ∷ double_of Field.rx
    ∷ double_of Field.ry
    ∷ double_of Field.rz
    ∷ []

-- The columns Temp_0 to DeviceMotionStatus.
abbrev pub state : List Column
state = temperature_of 0 ∷ temperature_of 1 ∷ temperature_of 2 ∷ motion ∷ []

-- The structure that the switch reads, with its columns; the other types have none.
unfoldable pub columns_of : Family → Layout × List Column
columns_of composite = (composite_packet, raw ++ (fused ++ (replicate 6 blank ++ state)))
columns_of regular = (regular_packet, replicate 18 blank ++ (fused ++ (replicate 6 blank ++ state)))
columns_of composite2 = (composite_packet_2, raw ++ (fused ++ (moving ++ state)))
columns_of _ = (composite_packet, replicate 41 blank)

-- The `int16_t` of two bytes.
abbrev pub signed16 : ℕ → ℤ
signed16 n = if ltb n (2 ^ 15) then pos n else negsuc (2 ^ 16 - 1 - n)

-- An `int8_t` that is printed with "%u".
abbrev pub unsigned_of : ℕ → ℤ
unsigned_of n = pos (if ltb n 128 then n else n + (2 ^ 32 - 256))

-- The text of a column, in a buffer of 32. The temperatures are read through `composite` for every type.
unfoldable pub text_of : Texts → Layout → Packet → Column → List ℕ
text_of texts layout p blank = []
text_of texts layout p motion =
    printed 32 (decimal (unsigned_of (member layout p Field.device_motion_status)))
text_of texts layout p (float_of m) = printed 32 (texts.float (member layout p m))
text_of texts layout p (double_of m) = printed 32 (texts.double (member layout p m))
text_of texts layout p (temperature_of i) =
    printed 32
      (texts.integer (signed16 (load p (offset_of composite_packet Field.temperature + 2 * i) 2)))

abbrev pub texts_of : Texts → Layout → Packet → List Column → List (List ℕ)
texts_of texts layout p [] = []
texts_of texts layout p (column ∷ columns) =
    text_of texts layout p column ∷ texts_of texts layout p columns

-- The cells of a line: the type and the time, which is read through `composite`, and the columns.
unfoldable pub cells_of : Texts → Packet → List (List ℕ)
unfolding columns_of
cells_of texts p =
    let (layout, columns) = columns_of (family_of (packet_type p)) in
    decimal (pos (packet_type p))
    ∷ decimal (pos (member composite_packet p Field.time))
    ∷ texts_of texts layout p columns

-- `format_packet`: the whole line, whose length is the result. LINEBUF_SIZE is 1024.
abbrev pub line_of : Texts → Packet → List ℕ
line_of texts p = joined (cells_of texts p) ++ 10 ∷ []

unfoldable pub format_packet : Texts → Packet → ℕ × List ℕ
format_packet texts p = (length (line_of texts p), printed 1024 (line_of texts p))

-- The inner loop of `save_thread_func` with an open file, as its bytes. `packet` is the variable that a
-- packet is taken out into.
unfoldable pub save_packets :
    ℕ → Texts → Ring Packet → Packet → List ℕ → Option (Ring Packet × List ℕ)
unfolding format_packet
save_packets zero texts queue packet file = none
save_packets (suc fuel) texts queue packet file =
    let (found, packet', queue') = pop max_packet_queue_length queue packet in
    let (len, text) = format_packet texts packet' in
    let rest = save_packets fuel texts queue' packet' (if ltb 0 len then file ++ text else file) in
    if found then rest else some (queue', file)
