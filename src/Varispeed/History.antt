-- ===== src/Varispeed/History.antt =====
-- A renderer after any calls, from the one that the initialisers of its members make.
use music_ra_t.Common.{
  ℕ, ◌^◌, ◌%◌, ◌≡◌, ◌⊎◌, inl, inr, List, [], ◌∷◌, Bool, true, Option, none, some, arith,
}
use music_ra_t.Common.Floats.{Floats}
use music_ra_t.Audio.{AudioBlock}
use music_ra_t.Protocol.{Block, DeckControlEvent}
use music_ra_t.Varispeed.{
  Renderer, new_renderer, prepare, take_seek_request, clear_track_controls, valid_rate,
  set_rate_immediate, ramp_rate, set_playing,
}
use music_ra_t.Varispeed.Chunks.{View, Chunk}
use music_ra_t.Varispeed.Consistent.{
  IsConsistent, new_renderer-IsConsistent, prepare-IsConsistent, clear_track_controls-IsConsistent,
  take_seek_request-IsConsistent, set_playing-IsConsistent, set_rate_immediate-IsConsistent,
  ramp_rate-IsConsistent,
}
use music_ra_t.Varispeed.Rendering.{Rendered, render, render_underrun}
use music_ra_t.Varispeed.Rendering.Shape.{IsDelivered, IsRefused, Outcome, render_lem}
use music_ra_t.Varispeed.Rendering.Underrun.{render_underrun_lem}

-- The calls that change a renderer, but for `set_rate_bounds`. A count of frames is a 32-bit number.
pub data Call (fl : Floats) : Type 0 where
  prepares : ℕ → fl.F → Call fl
  takes_seek : Call fl
  clears : Call fl
  sets_rate : fl.F → Call fl
  ramps : fl.F → ℕ → Call fl
  plays : Bool → Call fl
  renders :
      List (View fl.F)
      → fl.F
      → ℕ
      → ℕ
      → ℕ
      → Option (Block (DeckControlEvent fl.F))
      → AudioBlock fl.F
      → List fl.F
      → Call fl
  starves :
      ℕ → fl.F → ℕ → ℕ → ℕ → Option (Block (DeckControlEvent fl.F)) → AudioBlock fl.F → Call fl

module _ (fl : Floats) (max_channels max_frames : ℕ) where
  open fl use {F, of_ℕ}

  pub call : Call fl → Renderer F → Renderer F
  call (Call.prepares g x) r = prepare fl g x r
  call Call.takes_seek r = (take_seek_request fl r).1
  call Call.clears r = clear_track_controls fl r
  call (Call.sets_rate x) r = (set_rate_immediate fl x r).1
  call (Call.ramps x n) r = (ramp_rate fl x n r).1
  call (Call.plays b) r = set_playing fl b r
  call (Call.renders vs x n ts sn cs o rates) r =
      (render fl max_channels max_frames vs x (n % 2 ^ 32) ts sn cs r o rates).renderer
  call (Call.starves ch x n ts sn cs o) r =
      (render_underrun fl max_channels max_frames ch x (n % 2 ^ 32) ts sn cs r o).renderer

  pub calls : List (Call fl) → Renderer F → Renderer F
  calls [] r = r
  calls (c ∷ cs) r = calls cs (call c r)

  refused_or_delivered :
      (frames : ℕ) (r : Renderer F) (out : Rendered fl)
      → IsConsistent fl r
      → IsDelivered fl max_channels max_frames frames out
        ⊎ IsRefused fl max_channels max_frames r out
      → IsConsistent fl out.renderer
  refused_or_delivered frames r out c (inl d) = d.consistent
  refused_or_delivered frames r out c (inr d) = rw d.same c

  Outcome-IsConsistent :
      (request : Option (List (Chunk F))) (frames : ℕ) (r : Renderer F) (rates : List F)
      (out : Rendered fl)
      → IsConsistent fl r
      → Outcome fl max_channels max_frames request frames r rates out
      → IsConsistent fl out.renderer
  Outcome-IsConsistent none frames r rates out c h = rw h.same c
  Outcome-IsConsistent (some cs) frames r rates out c (inl (_, d)) = d.consistent
  Outcome-IsConsistent (some cs) frames r rates out c (inr (_, _, d)) = rw d.same c

  call-IsConsistent :
      (c : Call fl) (r : Renderer F) → IsConsistent fl r → IsConsistent fl (call c r)
  unfolding call
  call-IsConsistent (Call.prepares g x) r h = prepare-IsConsistent fl g x r h
  call-IsConsistent Call.takes_seek r h = take_seek_request-IsConsistent fl r h
  call-IsConsistent Call.clears r h = clear_track_controls-IsConsistent fl r h
  call-IsConsistent (Call.sets_rate x) r h = set_rate_immediate-IsConsistent fl x r h
  call-IsConsistent (Call.ramps x n) r h = ramp_rate-IsConsistent fl x n r h
  call-IsConsistent (Call.plays b) r h = set_playing-IsConsistent fl b r h
  call-IsConsistent (Call.renders vs x n ts sn cs o rates) r h =
      Outcome-IsConsistent _ (n % 2 ^ 32) r rates _ h
        (render_lem fl max_channels max_frames vs x (n % 2 ^ 32) ts sn cs r o rates (omega arith) h)
  call-IsConsistent (Call.starves ch x n ts sn cs o) r h =
      elim (render_underrun_lem fl max_channels max_frames
        (record { channels = ch; frames = n % 2 ^ 32; rate = x }) ts sn cs r o h) [
          | inl (_, d) ↦ d.consistent
          | inr (_, d) ↦ rw d.same h
        ]

  calls-IsConsistent :
      (cs : List (Call fl)) (r : Renderer F) → IsConsistent fl r → IsConsistent fl (calls cs r)
  unfolding calls
  calls-IsConsistent [] r h = h
  calls-IsConsistent (c ∷ cs) r h = calls-IsConsistent cs (call c r) (call-IsConsistent c r h)

  -- If the rate 1 is valid for a new renderer, then after any calls but `set_rate_bounds`, with any
  -- deck controls in the blocks: an enabled loop is not empty and has its start set, an end that is
  -- not set is 0; a preview and a pending hold need the button held and exclude each other; a seek
  -- that is requested is in flight; the rate that is aimed at is valid, and is the current rate
  -- outside of a ramp.
  pub calls_new-IsConsistent :
      (cs : List (Call fl))
      → valid_rate fl (new_renderer fl) (of_ℕ 1) ≡ true
      → IsConsistent fl (calls cs (new_renderer fl))
  calls_new-IsConsistent cs h =
      calls-IsConsistent cs (new_renderer fl) (new_renderer-IsConsistent fl h)
