-- ===== src/Lib.antt =====
-- The control logic of a dual-core firmware for the STM32H745 Discovery board: the Cortex-M7 runs
-- the user interface, the file system and the services, the Cortex-M4 the audio output, and the two
-- exchange messages through rings in shared memory.
--
-- Parts and files. Each function of the source has a definition of the same name without the prefix
-- of its module; a file below a part states what holds of it.
-- - Ipc.Header, Ipc.Ring, Ipc.Watch: firmware/src/ipc/ipc_ring.c. A ring is its number of slots, the two
--   16-bit counters and the storage, a list of slots; a slot is a header and 256 bytes.
--   Ipc.Queue is the specification of a ring, a bounded queue of messages. Ring.Live and
--   Ring.Fifo relate the two, Ring.Run is about sequences of calls, Ring.Wrap about the
--   counters passing 65535.
-- - Ipc.Link: firmware/src/ipc/ipc_link.c. The shared memory is a control block and two windows, each
--   with the counters and the slots of one ring. A link holds which window it sends to and which
--   it receives from; the kick callback is a flag and a count of its calls. The slots of a window
--   are there whatever a foreign control block says of their number.
-- - Vfs.Path: firmware/src/svc/vfs_path.c. A string is the list of its bytes before the terminator.
-- - Vfs.Fat, Vfs.Files, Vfs.Dirs: firmware/src/svc/vfs.c: the volume and its lock, the calls on files, those on
--   directories and names. FatFs and the operating system are a record of the calls that are made of
--   them, over any state. `locked` is a call between vfs_lock and vfs_unlock. The loop of vfs_readdir
--   has fuel; more than the entries that are left in the directory is enough. Vfs.Protocol says
--   how FatFs is to be used, Vfs.Guarded which paths reach it.
-- - Znp: firmware/src/svc/znp_mt.c.
-- - Shell.Nav: firmware/src/shell/nav.c. Shell.Launcher: firmware/src/shell/launcher_geom.c.
-- - Audio.Pipe: firmware/src/svc/audio_pipe.c. Audio.Mix: firmware/src/svc/audio_mix.c.
-- - Time.Calendar: the calendar functions of firmware/src/svc/time.c.
-- - Time.Clock: the clock of the same file, as it is built without `CORE_CM7`. The loop of `add_days` has fuel, one more than the
--   days, since each round takes at least one of them.
-- - Base: what they share. Base.Errors is `err_t`, and the calls that give a value or an error.
-- - Cfg: firmware/src/svc/cfg.c. The file system is a record of the calls that the settings make of
--   it, over any state, so that the theorems hold for whatever it does.
-- - Display: disp_clip_rect of firmware/src/bsp/disp_geom.c.
-- - Game.Chip8: firmware/src/game/chip8.c, with the demo of chip8_roms.c. Every access to an array goes
--   through Base.Access and is `none` past its end, so a run that ends in `some` has stayed
--   inside. Game.Chip8.Exec is `op_step`, Machine the calls of the game module but
--   `chip8_draw`, which is in Draw, over the calls of gfx.c.
-- - Game.Brick: firmware/src/game/brick.c. Places and speeds are integers of 1/256 pixel; an `int` and an
--   `int32_t` have no bound, and the casts to `int16_t` are written out. Brick.Play is what happens in a
--   game, Brick.Valid says when a state is as it should be, Brick.Draw is its drawing.
-- - Game.Gfx: firmware/src/game/gfx.c. The buffer of a picture is the list of its pixels, or absent. Its accesses, like
--   those of chip8.c, go through Base.Access.
-- - Memtest: firmware/src/svc/memtest.c, over anything that answers to reads and writes. Memtest.Lines has the memory whose
--   address lines may be crossed.
-- - Health: firmware/src/svc/health.c, without its self-test. The kicks of the watchdog of the board are counted.
-- - Log: firmware/src/svc/log.c. A buffer is the list of the bytes written so far. Log.Format is
--   `format_msg`, over a list of typed arguments; an argument that is not there is `none`, as the
--   behaviour is then undefined in C. Log.Write has the static variables and the calls; the clock
--   is a number that the caller gives, and the sink the list of what it was given.
-- - TextView: firmware/src/svc/text_view.c. The bytes written to the window and the bytes not yet read
--   are lists, in place of indices into the two arrays. The file system is a record of the
--   calls that are made of it, over any state. TextView.Utf8 is the Unicode standard's table of
--   well-formed UTF-8.
-- - Auto: firmware/src/svc/auto.c. A row of the table is a rule with its two flags, and the table the list
--   of the rows in use; an address is the list of its bytes. Auto.Table has the calls, Auto.Store
--   the bytes of a rule. `auto_poll` is given whether the rules can be saved and the minute.
-- The Tests modules run the definitions at concrete inputs and apply the theorems there.
--
-- Conventions. State is passed explicitly. A pointer to the object that a function acts on, or to
-- where it stores a result, is not NULL, nor is a path or a name of Vfs.Path; the NULL tests of these
-- are not in the definitions. A data buffer that may be NULL is an Option where its bytes are read and a
-- flag where they are written. A number of w bits is a natural number, with the remainder by 2 ^ w
-- written out where it can wrap; samples are integers of Base.Int.
--
-- Bounds and fuel. The loops of the source are structural recursion. `year_loop` has 230 rounds, the
-- years from 1970 to 2199 after which the loop of the source stops; a 32-bit number of seconds
-- ends in 2106. `month_loop` has the 12 rounds of the source. The frames of `chip8_tick` run on fuel for
-- one more than a sixteenth of the waiting milliseconds, each frame taking 16 of them. The loop of
-- `format_msg` runs on fuel for the characters of the format, each round taking at least one. The loop of
-- `load_window` runs on fuel for the bytes that were read, in the same way. The loop of `vfs_readdir` has
-- the fuel that the caller gives, more than the entries that are left being enough, and that of `add_days` one more than
-- the days.
--
-- Not modelled. The calls of the two cores take effect one after the other: loads, copies and stores of
-- two calls that run at the same time are not interleaved, and neither are the two ends of the
-- audio pipe, nor the calls of two tasks on one file system: the lock of vfs.c is a call like the others. The
-- clock of firmware/src/svc/time.c on the board, the other services, games and apps are not modelled, nor the
-- self-tests of vfs_probe.c and health.c, and reading and writing the file of the rules of
-- firmware/src/svc/auto.c as a whole. The `int` of brick.c does not overflow in the model. Drivers, the ports of
-- FreeRTOS, lwIP, FatFS and LVGL, and the copies of nanopb, puff and TJpgDec are outside of what is modelled.
pub mod Base
pub mod Ipc
pub mod Vfs
pub mod Znp
pub mod Shell
pub mod Audio
pub mod Time
pub mod Cfg
pub mod Display
pub mod Game
pub mod Log
pub mod Memtest
pub mod Health
pub mod TextView
pub mod Auto
