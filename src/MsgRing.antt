-- ===== src/MsgRing.antt =====
-- kernel/tkernel/src/messagebuf.c: the ring of bytes in which a message buffer keeps its messages.
-- INT values are not negative here; a difference of the source that could be is noted where it stands.
pub mod Copy
pub mod Wrap
pub mod Stored
pub mod Parts
pub mod Moved
pub mod Store
pub mod Fetch
mod Tests
use open_t_kernel.Base.{
  ℕ, Bool, ◌+◌, ◌-◌, ◌*◌, ◌/◌, ◌%◌, ◌^◌, leb, ltb, ◌==◌, ◌&&◌, if◌then◌else◌, upd,
}
use open_t_kernel.Bits.{Bytes}
use open_t_kernel.Kernel.{Mbfcb}

-- MEMCPY(&dst[at], &src[from], n) between two areas that have no byte in common.
unfoldable pub copy : Bytes → ℕ → Bytes → ℕ → ℕ → Bytes
copy dst at src from n x = if leb at x && ltb x (at + n) then src (from + (x - at)) else dst x

-- The INT at a place of the buffer, for a little-endian CPU.
unfoldable pub get_header : Bytes → ℕ → ℕ
get_header b at = b at + 256 * b (at + 1) + 65536 * b (at + 2) + 16777216 * b (at + 3)

unfoldable pub put_header : Bytes → ℕ → ℕ → Bytes
put_header b at v =
    upd (upd (upd (upd b at (v % 256)) (at + 1) (v / 256 % 256)) (at + 2) (v / 65536 % 256))
      (at + 3) (v / 16777216 % 256)

-- HEADERSZ
abbrev pub headersz : ℕ
headersz = 4

-- ROUNDSZ, on UINT; the mask clears the two low bits.
abbrev pub roundsz : ℕ → ℕ
roundsz sz = (sz + 3) % 2 ^ 32 / 4 * 4

-- mbf_free
abbrev pub mbf_free : Mbfcb → ℕ → Bool
mbf_free m msgsz = leb ((headersz + msgsz) % 2 ^ 32) m.frbufsz

-- mbf_empty
abbrev pub mbf_empty : Mbfcb → Bool
mbf_empty m = m.frbufsz == m.bufsz

-- `if ( tail >= bufsz ) { tail = 0; }`
abbrev pub ring_end : ℕ → ℕ → ℕ
ring_end bufsz tail = if leb bufsz tail then 0 else tail

-- msg_to_mbf. The first subtraction is not negative where mbf_free was asked before.
unfoldable pub msg_to_mbf : Mbfcb → Bytes → ℕ → Mbfcb
msg_to_mbf m msg msgsz =
    let buffer = put_header m.buffer m.tail msgsz in
    let tail = ring_end m.bufsz (m.tail + headersz) in
    let remsz = m.bufsz - tail in
    let wraps = ltb remsz msgsz in
    let buffer1 = if wraps then copy buffer tail msg 0 remsz else buffer in
    let from = if wraps then remsz else 0 in
    let left = if wraps then msgsz - remsz else msgsz in
    let tail1 = if wraps then 0 else tail in
    record m {
      frbufsz = m.frbufsz - (headersz + roundsz msgsz);
      buffer = copy buffer1 tail1 msg from left;
      tail = ring_end m.bufsz (tail1 + roundsz left);
    }

-- mbf_to_msg: the size of the message, the bytes at `msg`, and the message buffer.
unfoldable pub mbf_to_msg : Mbfcb → Bytes → ℕ × Bytes × Mbfcb
mbf_to_msg m msg =
    let msgsz = get_header m.buffer m.head in
    let head = ring_end m.bufsz (m.head + headersz) in
    let remsz = m.bufsz - head in
    let wraps = ltb remsz msgsz in
    let msg1 = if wraps then copy msg 0 m.buffer head remsz else msg in
    let to = if wraps then remsz else 0 in
    let left = if wraps then msgsz - remsz else msgsz in
    let head1 = if wraps then 0 else head in
    (
      msgsz,
      copy msg1 to m.buffer head1 left,
      record m {
        frbufsz = m.frbufsz + (headersz + roundsz msgsz);
        head = ring_end m.bufsz (head1 + roundsz left);
      },
    )
