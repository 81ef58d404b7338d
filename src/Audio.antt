-- ===== src/Audio.antt =====
-- The audio path between the cores: firmware/src/svc/audio_pipe.c and audio_mix.c.
pub mod Pipe
pub mod Mix
mod Tests
