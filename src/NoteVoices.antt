-- ===== src/NoteVoices.antt =====
-- include/musicrat/dsp/note_voice_bank.hpp: the voices of a synthesiser. `float` and `double` are one
-- type here; the number of voices, which the build sets, is the length of the list.
pub mod Distinct
use music_ra_t.Common.{
  ℕ, zero, suc, ◌+◌, ◌%◌, ◌^◌, List, [], ◌∷◌, map, Bool, true, false, ◌&&◌, ◌||◌, not, Option, none,
  some, length, get_elem?, set, replicate, ltb, ◌==◌, if◌then◌else◌,
}
use music_ra_t.Common.Floats.{Floats, clamp}
use music_ra_t.Adsr.{
  AdsrParameters, AdsrEnvelope, is_active, new_envelope, start_envelope, release_envelope, next,
}
use music_ra_t.NoteEvents.{NoteEvent}

pub record NoteVoice (F : Type 0) : Type 0 where
  pub source_endpoint_id : ℕ
  pub note_id : ℕ
  pub channel : ℕ
  pub key : ℕ
  pub active : Bool
  pub releasing : Bool
  pub velocity : F
  pub envelope : F
  pub envelope_step : F
  pub amplitude_envelope : AdsrEnvelope F
  pub filter_envelope : AdsrEnvelope F

pub record NoteVoiceBank (F : Type 0) : Type 0 where
  pub voices : List (NoteVoice F)
  pub next_voice_to_steal : ℕ

module _ {F : Type 0} where
  unfoldable pub matches : NoteVoice F → NoteEvent F → Bool
  matches v e =
      v.active
      && v.source_endpoint_id == e.source_endpoint_id
      && v.note_id == e.note_id
      && v.channel == e.channel
      && v.key == e.key

  -- The index of the first voice from `i` on that passes the test.
  pub first_from : (NoteVoice F → Bool) → ℕ → List (NoteVoice F) → Option ℕ
  first_from test i [] = none
  first_from test i (v ∷ vs) = if test v then some i else first_from test (suc i) vs

  -- The voice for a note, and the next one to steal: one that matches, one that is not active, or the
  -- one whose turn it is.
  pub select_voice : NoteVoiceBank F → NoteEvent F → ℕ × ℕ
  unfolding first_from
  select_voice b e = elim (first_from (λ v. matches v e) 0 b.voices) [
    | some i ↦ (i, b.next_voice_to_steal)
    | none ↦ elim (first_from (λ v. not v.active) 0 b.voices) [
      | some i ↦ (i, b.next_voice_to_steal)
      | none ↦ (b.next_voice_to_steal, (b.next_voice_to_steal + 1) % length b.voices)
    ]
  ]

module _ (fl : Floats) where
  open fl use {F, of_ℕ, to_ℕ, mul, div, lt}

  -- `NoteVoice{}`
  unfoldable pub new_voice : NoteVoice F
  new_voice = record {
    source_endpoint_id = 0;
    note_id = 0;
    channel = 0;
    key = 0;
    active = false;
    releasing = false;
    velocity = of_ℕ 0;
    envelope = of_ℕ 0;
    envelope_step = of_ℕ 0;
    amplitude_envelope = new_envelope fl;
    filter_envelope = new_envelope fl;
  }

  pub start_voice :
      NoteEvent F → AdsrParameters F → AdsrParameters F → F → NoteVoice F → NoteVoice F
  start_voice e amplitude filter sample_rate_hz v =
      let velocity = clamp fl e.value (of_ℕ 0) (of_ℕ 1) in
      record {
        source_endpoint_id = e.source_endpoint_id;
        note_id = e.note_id;
        channel = e.channel;
        key = e.key;
        active = true;
        releasing = false;
        velocity = velocity;
        envelope = of_ℕ 0;
        envelope_step = of_ℕ 0;
        amplitude_envelope =
            start_envelope fl amplitude sample_rate_hz velocity v.amplitude_envelope;
        filter_envelope = start_envelope fl filter sample_rate_hz (of_ℕ 1) v.filter_envelope;
      }

  -- The parameters of the overloads that take a number of frames.
  pub fade_parameters : ℕ → AdsrParameters F
  fade_parameters frames =
      let milliseconds = div (mul (of_ℕ frames) (of_ℕ 1000)) (of_ℕ 48000) in
      record {
        attack_ms = milliseconds;
        decay_ms = of_ℕ 0;
        sustain_level = of_ℕ 1;
        release_ms = milliseconds;
      }

  pub release_voice : NoteVoice F → NoteVoice F
  release_voice v = if not v.active || v.releasing then v else record v {
    releasing = true;
    amplitude_envelope = release_envelope fl v.amplitude_envelope;
    filter_envelope = release_envelope fl v.filter_envelope;
  }

  pub next_envelope : NoteVoice F → F × NoteVoice F
  next_envelope v =
      let (level, e) = next fl v.amplitude_envelope in
      if not v.active then (of_ℕ 0, v) else (
        level,
        record v {
          envelope = level;
          amplitude_envelope = e;
          active = if not (is_active e) then false else v.active;
        },
      )

  pub next_filter_envelope : NoteVoice F → F × NoteVoice F
  next_filter_envelope v =
      let (level, e) = next fl v.filter_envelope in (level, record v { filter_envelope = e })

  pub envelope_frames : F → F → ℕ
  envelope_frames envelope_ms sample_rate_hz =
      let bounded_ms = clamp fl envelope_ms (of_ℕ 1) (of_ℕ 100) in
      let frames = to_ℕ (div (mul bounded_ms sample_rate_hz) (of_ℕ 1000)) % 2 ^ 32 in
      if ltb 1 frames then frames else 1

  -- The voices of the source and the channel of the event.
  pub is_of_channel : NoteEvent F → NoteVoice F → Bool
  is_of_channel e v =
      v.active && v.source_endpoint_id == e.source_endpoint_id && v.channel == e.channel

  pub release_where : (NoteVoice F → Bool) → List (NoteVoice F) → List (NoteVoice F)
  release_where test vs = map (λ v. if test v then release_voice v else v) vs

  start_at :
      NoteEvent F
      → AdsrParameters F
      → AdsrParameters F
      → F
      → NoteVoiceBank F
      → ℕ × ℕ
      → ℕ × NoteVoiceBank F
  unfolding start_voice
  start_at e amplitude filter sample_rate_hz b (i, steal) = elim (get_elem? b.voices i) [
    | none ↦ (i, record b { next_voice_to_steal = steal })
    | some v ↦ (
      i,
      record {
        voices = set b.voices i (start_voice e amplitude filter sample_rate_hz v);
        next_voice_to_steal = steal;
      },
    )
  ]

  -- The index of the voice that plays the note, or the number of voices. The types are 0 on, 1 off
  -- and 5 all off.
  pub apply :
      NoteEvent F → AdsrParameters F → AdsrParameters F → F → NoteVoiceBank F → ℕ × NoteVoiceBank F
  unfolding start_at select_voice release_where is_of_channel
  apply e amplitude filter sample_rate_hz b =
      if e.type == 0 && lt (of_ℕ 0) e.value
      then start_at e amplitude filter sample_rate_hz b (select_voice b e)
      else if e.type == 5
      then (length b.voices, record b { voices = release_where (is_of_channel e) b.voices })
      else if e.type == 1 || e.type == 0
      then (length b.voices, record b { voices = release_where (λ v. matches v e) b.voices })
      else (length b.voices, b)

  pub apply_faded : NoteEvent F → ℕ → NoteVoiceBank F → ℕ × NoteVoiceBank F
  unfolding apply fade_parameters
  apply_faded e fade_frames b =
      apply e (fade_parameters fade_frames) (fade_parameters fade_frames) (of_ℕ 48000) b

  pub clear : NoteVoiceBank F → NoteVoiceBank F
  unfolding new_voice
  clear b = record { voices = map (λ v. new_voice) b.voices; next_voice_to_steal = 0 }
