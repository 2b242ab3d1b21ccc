-- ===== src/Tests.antt =====
-- Examples: each theorem at concrete values, with integers for the doubles.
mod Media
mod Reading
mod Events
mod Loads
mod Playback
mod Listening
mod Voices
mod Beats
