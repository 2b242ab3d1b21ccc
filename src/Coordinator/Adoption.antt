-- ===== src/Coordinator/Adoption.antt =====
-- `render` of the coordinator: the rendering thread takes over the published generation.
use music_ra_t.Common.{
  ℕ, ◌%◌, ◌^◌, ◌≡◌, refl, ◌∙◌, false, Option, none, some, arith, not, ◌==◌, if◌then◌else◌,
  Bool-cases, inl, inr,
}
use music_ra_t.Common.Floats.{Floats}
use music_ra_t.Audio.{AudioBlock}
use music_ra_t.Coordinator.{Published, Gaps, PlaybackSnapshot, try_read_snapshot}
use music_ra_t.DecodeAheadRenderer.{DecodeAheadRenderer, Played, prepare_at, play, render_suspended}
use music_ra_t.DecodeAheadRenderer.Calls.{
  IsOwnerOf, prepare_at-IsOwner, generation-prepare_at, play_lem, render_suspended-IsOwner,
  generation-render_suspended,
}
use music_ra_t.Protocol.{Block, DeckControlEvent}
use music_ra_t.Varispeed.Rendering.{VarispeedRenderResult}

-- The members of the rendering thread.
pub record Listener (F : Type 0) : Type 0 where
  pub player : DecodeAheadRenderer F
  pub adopted_generation : ℕ

module _ (fl : Floats) where
  open fl use {F, of_ℕ}

  pub adopt : PlaybackSnapshot → Listener F → Listener F
  adopt s l =
      if not (s.generation == l.adopted_generation)
      then record {
        player =
            prepare_at fl s.generation (of_ℕ s.media_frame) (s.channel_count % 2 ^ 16) l.player;
        adopted_generation = s.generation;
      }
      else l

  pub record Heard : Type 0 where
    pub result : VarispeedRenderResult F
    pub output : AudioBlock F
    pub listener : Listener F

  heard : ℕ → Played fl → Heard
  heard adopted o = record {
    result = o.result;
    output = o.output;
    listener = record { player = o.state; adopted_generation = adopted };
  }

  module _ (max_channels max_frames : ℕ) where
    render_snapshot :
        Option PlaybackSnapshot
        → F
        → ℕ
        → ℕ
        → ℕ
        → Option (Block (DeckControlEvent F))
        → Listener F
        → AudioBlock F
        → Heard
    unfolding adopt heard
    render_snapshot none rate frames timestamp_ns sequence_number controls l output =
        heard l.adopted_generation (
          render_suspended fl max_channels max_frames rate frames timestamp_ns sequence_number
            controls l.player output)
    render_snapshot (some s) rate frames timestamp_ns sequence_number controls l output =
        let m = adopt s l in
        heard m.adopted_generation (
          play fl max_channels max_frames rate frames timestamp_ns sequence_number controls m.player
            output)

    pub render_published :
        Published
        → Gaps
        → Gaps
        → F
        → ℕ
        → ℕ
        → ℕ
        → Option (Block (DeckControlEvent F))
        → Listener F
        → AudioBlock F
        → Heard
    unfolding render_snapshot
    render_published m g1 g2 rate frames timestamp_ns sequence_number controls l output =
        render_snapshot (try_read_snapshot m g1 g2) rate frames timestamp_ns sequence_number
          controls l output

  -- The adopted generation is that of the renderer, which owns what it reads.
  pub record IsTuned (l : Listener F) : Type 0 where
    pub owner : IsOwnerOf l.player
    pub adopted : l.player.renderer.generation ≡ l.adopted_generation

  -- The generation after a read of the snapshot.
  abbrev pub heard_generation : Option PlaybackSnapshot → ℕ → ℕ
  heard_generation none adopted = adopted
  heard_generation (some s) adopted = s.generation

  adopt-IsTuned : (s : PlaybackSnapshot) (l : Listener F) → IsTuned l → IsTuned (adopt s l)
  unfolding adopt
  adopt-IsTuned s l h = elim (Bool-cases (s.generation == l.adopted_generation)) [
    | inl t ↦ rw t h
    | inr t ↦ rw t (record {
      owner = prepare_at-IsOwner fl s.generation _ _ l.player h.owner;
      adopted = generation-prepare_at fl s.generation _ _ l.player;
    })
  ]

  adopted-generation :
      (s : PlaybackSnapshot) (l : Listener F) → (adopt s l).adopted_generation ≡ s.generation
  unfolding adopt
  adopted-generation s l = ground arith

  module _ (max_channels max_frames : ℕ) where
    -- What comes out of a listener with the published generation `g`.
    abbrev pub Follows : ℕ → Heard → Type 0
    Follows g out =
        IsTuned out.listener
        × (out.listener.adopted_generation ≡ g)
        × (out.result.generation_mismatch ≡ false)

    render_snapshot-Follows :
        (s : Option PlaybackSnapshot) (x : F) (frames ts sn : ℕ)
        (controls : Option (Block (DeckControlEvent F))) (l : Listener F) (o : AudioBlock F)
        → IsTuned l
        → Follows
            (heard_generation s l.adopted_generation)
            (render_snapshot max_channels max_frames s x frames ts sn controls l o)
    unfolding render_snapshot heard
    render_snapshot-Follows none x frames ts sn controls l o h =
        let k =
          generation-render_suspended fl max_channels max_frames x frames ts sn controls l.player
            o in
        (
          record {
            owner =
                render_suspended-IsOwner fl max_channels max_frames x frames ts sn controls l.player
                  o h.owner;
            adopted = k.1 ∙ h.adopted;
          },
          refl,
          k.0,
        )
    render_snapshot-Follows (some s) x frames ts sn controls l o h =
        let t = adopt-IsTuned s l h in
        let k =
          play_lem fl max_channels max_frames x frames ts sn controls (adopt s l).player o
            t.owner in
        (record { owner = k.0; adopted = k.2 ∙ t.adopted }, adopted-generation s l, k.1)

    -- If the adopted generation is that of the renderer, which owns what it reads, then so it is
    -- after `render`: the generation is the one of the snapshot if one was read, and the old one
    -- otherwise, and no chunk of another generation was met.
    pub render_published_lem :
        (m : Published) (g1 g2 : Gaps) (x : F) (frames ts sn : ℕ)
        (controls : Option (Block (DeckControlEvent F))) (l : Listener F) (o : AudioBlock F)
        → IsTuned l
        → Follows
            (heard_generation (try_read_snapshot m g1 g2) l.adopted_generation)
            (render_published max_channels max_frames m g1 g2 x frames ts sn controls l o)
    unfolding render_published
    render_published_lem m g1 g2 x frames ts sn controls l o h =
        render_snapshot-Follows (try_read_snapshot m g1 g2) x frames ts sn controls l o h
