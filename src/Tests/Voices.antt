-- ===== src/Tests/Voices.antt =====
-- A bank of two voices, and an envelope.
use music_ra_t.Common.{refl, [], ◌∷◌}
use music_ra_t.Common.Int.{ℤ, pos}
use music_ra_t.Common.Floats.{integers}
use music_ra_t.Adsr.{AdsrParameters, AdsrEnvelope, Stage}
use music_ra_t.NoteEvents.{NoteEvent}
use music_ra_t.NoteVoices.{NoteVoiceBank, new_voice, apply}
use music_ra_t.NoteVoices.Distinct.{IsDistinct, silent-IsDistinct, apply-IsDistinct}

abbrev bank : NoteVoiceBank ℤ
bank = record { voices = new_voice integers ∷ new_voice integers ∷ []; next_voice_to_steal = 0 }

abbrev note_on : NoteEvent ℤ
note_on = record {
  source_endpoint_id = 1;
  note_id = 7;
  sample_offset = 0;
  type = 0;
  channel = 0;
  key = 60;
  value = pos 1;
}

abbrev slow : AdsrParameters ℤ
slow = record { attack_ms = pos 1; decay_ms = pos 1; sustain_level = pos 1; release_ms = pos 3 }

apply-IsDistinct_example : IsDistinct (apply integers note_on slow slow (pos 1000) bank).1.voices
unfolding new_voice
apply-IsDistinct_example =
    apply-IsDistinct integers note_on slow slow (pos 1000) bank
      (silent-IsDistinct bank.voices (refl, (refl, tt)))

abbrev held : AdsrEnvelope ℤ
held = record {
  parameters = slow;
  sample_rate_hz = pos 1000;
  peak = pos 5;
  level = pos 5;
  stage_start = pos 0;
  stage_target = pos 5;
  stage_frame = 1;
  stage_frames = 1;
  stage = Stage.sustain;
}
