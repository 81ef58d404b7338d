-- ===== src/Ipc/Header.antt =====
-- The message header of firmware/include/ipc/ipc_msg.h, and the two header functions of
-- firmware/src/ipc/ipc_ring.c.
use stm32h745_disco.Base.{ℕ, ltb, ◌==◌, if◌then◌else◌, not, Err, Result, value, error}

abbrev pub ipc_magic : ℕ
ipc_magic = 0xA55A

abbrev pub ipc_version : ℕ
ipc_version = 1

abbrev pub ipc_payload_max : ℕ
ipc_payload_max = 256

-- `ipc_msg_hdr_t`
pub record Header : Type 0 where
  pub magic : ℕ
  pub ver : ℕ
  pub src : ℕ
  pub dst : ℕ
  pub flags : ℕ
  pub type : ℕ
  pub seq : ℕ
  pub len : ℕ

-- `ipc_hdr_init`: the header that is filled in, or the error.
unfoldable pub hdr_init : ℕ → ℕ → ℕ → ℕ → ℕ → Result Header
hdr_init src dst type seq len =
    if ltb ipc_payload_max len
    then error Err.inval
    else value (record {
      magic = ipc_magic;
      ver = ipc_version;
      src = src;
      dst = dst;
      flags = 0;
      type = type;
      seq = seq;
      len = len;
    })

-- `ipc_hdr_validate`
unfoldable pub hdr_validate : Header → Err
hdr_validate h =
    if not (h.magic == ipc_magic)
    then Err.corrupt
    else if not (h.ver == ipc_version)
    then Err.unsupported
    else if ltb ipc_payload_max h.len
    then Err.inval
    else Err.ok
