-- ===== src/Ipc/Link.antt =====
-- The link of firmware/src/ipc/ipc_link.c: two rings in memory that both cores share. A link holds
-- what `ipc_link_t` holds; the shared memory is passed along.
pub mod Transport
pub mod Session
pub mod Heartbeat
use stm32h745_disco.Base.{
  ℕ, Bool, true, false, Option, none, some, List, [], ◌∷◌, ◌+◌, ◌/◌, ◌%◌, ltb, ◌==◌, if◌then◌else◌,
  not, ◌&&◌, ◌||◌, u8, u16, u32, replicate, Err, is_ok, Result, value, error,
}
use stm32h745_disco.Ipc.Header.{Header, hdr_init, ipc_version}
use stm32h745_disco.Ipc.Ring.{Ring, Slot, Message, zero_slot, ring_push, ring_pop}
use stm32h745_disco.Ipc.Watch.{Watch, watch_beat, watch_alive}

abbrev pub ipc_shm_magic : ℕ
ipc_shm_magic = 0x31435049

abbrev pub ipc_ring_slots : ℕ
ipc_ring_slots = 60

abbrev pub ipc_ep_sys : ℕ
ipc_ep_sys = 1

abbrev pub ipc_ep_log : ℕ
ipc_ep_log = 4

abbrev pub ipc_sys_heartbeat : ℕ
ipc_sys_heartbeat = 1

abbrev pub ipc_role_m7 : ℕ
ipc_role_m7 = 0

abbrev pub ipc_role_m4 : ℕ
ipc_role_m4 = 1

-- `ipc_ctrl_t`
pub record Ctrl : Type 0 where
  pub magic : ℕ
  pub ver : ℕ
  pub nslots : ℕ
  pub m7_ready : ℕ
  pub m4_ready : ℕ
  pub m4_hb_ms : ℕ
  pub m4_hb_seq : ℕ
  pub kick_m7 : ℕ
  pub kick_m4 : ℕ

-- The memory of one ring: `ipc_meta_t` and the slots behind it.
pub record Window : Type 0 where
  pub head : ℕ
  pub tail : ℕ
  pub slots : List Slot

-- The shared memory: the control block, and the windows at `IPC_DOWN_OFF` and `IPC_UP_OFF`.
pub record Shm : Type 0 where
  pub ctrl : Ctrl
  pub down : Window
  pub up : Window

pub data Channel : Type 0 where
  down up : Channel

-- A bound `ipc_ring_t`: its number of slots, and the window that its pointers lead to.
pub record Binding : Type 0 where
  pub nslots : ℕ
  pub channel : Channel

-- `ipc_link_t`. `attached` says that `ctrl` is not NULL, `has_kick` that `kick` is not, and
-- `kicks` counts the calls of `kick`.
pub record Link : Type 0 where
  pub tx : Binding
  pub rx : Binding
  pub attached : Bool
  pub role : ℕ
  pub seq : ℕ
  pub seen_hb_seq : ℕ
  pub watch : Watch
  pub has_kick : Bool
  pub kicks : ℕ

abbrev pub window : Shm → Channel → Window
window s Channel.down = s.down
window s Channel.up = s.up

abbrev pub put_window : Shm → Channel → Window → Shm
put_window s Channel.down w = record s { down = w }
put_window s Channel.up w = record s { up = w }

-- The ring that a binding stands for in the shared memory, and the memory with that ring changed.
abbrev pub ring : Shm → Binding → Ring
ring s b =
    let w = window s b.channel in
    record { nslots = b.nslots; head = w.head; tail = w.tail; slots = w.slots }

abbrev pub put_ring : Shm → Binding → Ring → Shm
put_ring s b r = put_window s b.channel (record { head = r.head; tail = r.tail; slots = r.slots })

-- `src_ep`
unfoldable pub src_ep : ℕ → ℕ
src_ep dst = if dst == ipc_ep_log then ipc_ep_log else ipc_ep_sys

-- `ipc_ring_bind` on a window of the shared memory, which is never NULL.
unfoldable pub ring_bind : ℕ → Channel → Result Binding
ring_bind n c = if n == 0 then error Err.inval else value (record { nslots = n; channel = c })

bind_both : ℕ → Channel → Channel → Link → Err × Link
unfolding ring_bind
bind_both n t r l = elim (ring_bind n t) [
  | error e ↦ (e, l)
  | value b ↦ elim (ring_bind n r) [
    | error e ↦ (e, record l { tx = b })
    | value c ↦ (Err.ok, record l { tx = b; rx = c })
  ]
]

-- `bind_role`
unfoldable pub bind_role : Link → Shm → Err × Link
unfolding bind_both
bind_role l s =
    if l.role == ipc_role_m7
    then bind_both s.ctrl.nslots Channel.down Channel.up l
    else bind_both s.ctrl.nslots Channel.up Channel.down l

-- A ring's window after `memset`.
abbrev pub zero_window : Window
zero_window = record { head = 0; tail = 0; slots = replicate ipc_ring_slots zero_slot }

-- `format_shm`
unfoldable pub format_shm : Shm → Shm
format_shm s = record {
  ctrl = record {
    magic = ipc_shm_magic;
    ver = ipc_version;
    nslots = ipc_ring_slots;
    m7_ready = 1;
    m4_ready = 0;
    m4_hb_ms = 0;
    m4_hb_seq = 0;
    kick_m7 = 0;
    kick_m4 = 0;
  };
  down = zero_window;
  up = zero_window;
}

-- `attach_shm`
unfoldable pub attach_shm : Shm → Err
attach_shm s =
    if not (s.ctrl.magic == ipc_shm_magic)
    then Err.corrupt
    else if not (s.ctrl.ver == ipc_version)
    then Err.unsupported
    else if s.ctrl.nslots == 0 || ltb ipc_ring_slots s.ctrl.nslots
    then Err.inval
    else Err.ok

-- `kick_peer`, called with `ctrl` not NULL.
unfoldable pub kick_peer : Link → Shm → Link × Shm
kick_peer l s =
    let told : Shm =
      if l.role == ipc_role_m7
      then record s { ctrl = record (s.ctrl) { kick_m4 = u32 (s.ctrl.kick_m4 + 1) } }
      else record s { ctrl = record (s.ctrl) { kick_m7 = u32 (s.ctrl.kick_m7 + 1) } } in
    (if l.has_kick then record l { kicks = l.kicks + 1 } else l, told)

-- The link after `memset` in `ipc_link_open`, with the role and the control block filled in.
abbrev pub blank_link : ℕ → ℕ → Link
blank_link role kicks = record {
  tx = record { nslots = 0; channel = Channel.down };
  rx = record { nslots = 0; channel = Channel.down };
  attached = true;
  role = role;
  seq = 0;
  seen_hb_seq = 0;
  watch = record { last_ms = 0; seen = 0 };
  has_kick = false;
  kicks = kicks;
}

-- `ipc_link_open`
unfoldable pub link_open : Link → Shm → ℕ → Bool → Err × Link × Shm
link_open l s role format =
    if not (role == ipc_role_m7) && not (role == ipc_role_m4)
    then (Err.inval, l, s)
    else if format && not (role == ipc_role_m7)
    then (Err.inval, l, s)
    else let fresh = blank_link role l.kicks in
      let s' = if format then format_shm s else s in
      let e = if format then Err.ok else attach_shm s in
      if not (is_ok e)
      then (e, record fresh { attached = false }, s')
      else let (e', bound) = bind_role fresh s' in
        if not (is_ok e')
        then (e', record bound { attached = false }, s')
        else if role == ipc_role_m4
        then (Err.ok, bound, record s' { ctrl = record (s'.ctrl) { m4_ready = 1 } })
        else (Err.ok, bound, s')

-- What `ipc_link_send` does with a header that `ipc_hdr_init` has filled in.
unfoldable pub send_msg : Link → Shm → Header → Option (List ℕ) → Err × Link × Shm
send_msg l s h payload =
    let (e, r) = ring_push (ring s l.tx) h payload in
    if not (is_ok e)
    then (e, l, s)
    else let (l', s') = kick_peer (record l { seq = u16 (l.seq + 1) }) (put_ring s l.tx r) in
      (Err.ok, l', s')

-- `ipc_link_send`
unfoldable pub link_send : Link → Shm → ℕ → ℕ → Option (List ℕ) → ℕ → Err × Link × Shm
link_send l s dst type payload len =
    if not l.attached then (Err.inval, l, s) else elim (hdr_init (src_ep dst) dst type l.seq len) [
      | error e ↦ (e, l, s)
      | value h ↦ send_msg l s h payload
    ]

-- `ipc_link_recv`
unfoldable pub link_recv : Link → Shm → Bool → ℕ → Err × Option Message × Shm
link_recv l s buffer room =
    if not l.attached
    then (Err.inval, none, s)
    else let (e, m, r) = ring_pop (ring s l.rx) buffer room in (e, m, put_ring s l.rx r)

-- `ipc_link_set_kick`
unfoldable pub link_set_kick : Link → Bool → Link
link_set_kick l given = record l { has_kick = given }

-- The four bytes of a `uint32_t`, as both cores store it.
abbrev pub bytes32 : ℕ → List ℕ
bytes32 n = u8 n ∷ u8 (n / 256) ∷ u8 (n / 65536) ∷ u8 (n / 16777216) ∷ []

-- `ipc_link_heartbeat`
unfoldable pub link_heartbeat : Link → Shm → ℕ → Link × Shm
link_heartbeat l s now_ms =
    if not l.attached
    then (l, s)
    else let beat : Shm = record s {
      ctrl = record (s.ctrl) { m4_hb_ms = now_ms; m4_hb_seq = u32 (s.ctrl.m4_hb_seq + 1) };
    } in
      let (e, l', s') = link_send l beat ipc_ep_sys ipc_sys_heartbeat (some (bytes32 now_ms)) 4 in
      (l', s')

-- `ipc_link_observe`
unfoldable pub link_observe : Link → Shm → ℕ → Link
link_observe l s now_ms =
    if not l.attached
    then l
    else if s.ctrl.m4_ready == 0
    then l
    else if s.ctrl.m4_hb_seq == l.seen_hb_seq
    then l
    else record l { seen_hb_seq = s.ctrl.m4_hb_seq; watch = watch_beat l.watch now_ms }

-- `ipc_link_peer_alive`
unfoldable pub link_peer_alive : Link → ℕ → Bool
link_peer_alive l now_ms = watch_alive l.watch now_ms
