-- ===== src/Config.antt =====
-- internal/config/config.go: the settings with their defaults, and the check of the event feeds. The
-- regular expression of a source and filepath.Clean are arguments.
use kiss_protocol.Base.{
  ℕ, ◌+◌, ◌≡◌, refl, not, Bool, true, false, List, [], ◌∷◌, Bytes, codes, ltb, if◌then◌else◌,
  Result, ok, ◌>>◌, refuse_if, refused-then,
}
use kiss_protocol.Store.Head.{is_empty, key_listed}

pub record EventFeed : Type 0 where
  pub path : Bytes
  pub source : Bytes

-- The error, with the index of its feed.
pub data FeedError : Type 0 where
  empty_path malformed_source reserved_source source_used_twice path_used_twice : ℕ → FeedError

abbrev pub reserved_sources : List Bytes
reserved_sources =
    codes "witness"
    ∷ codes "witness-init"
    ∷ codes "sbh"
    ∷ codes "farm"
    ∷ codes "pipelock"
    ∷ codes "drift"
    ∷ codes "migrate"
    ∷ codes "pd"
    ∷ codes "pd-system"
    ∷ codes "mirror"
    ∷ codes "enforcer"
    ∷ codes "anomaly"
    ∷ codes "operator"
    ∷ []

-- The settings of Config that are numbers; an int may be negative, which counts as none.
pub record Thresholds : Type 0 where
  pub downtime_alert_minutes : ℕ
  pub mirror_escalate_after : ℕ
  pub farm_silence_minutes : ℕ

-- In minutes.
abbrev pub or_ten : ℕ → ℕ
or_ten minutes = if ltb 0 minutes then minutes else 10

abbrev pub downtime_alert : Thresholds → ℕ
downtime_alert c = or_ten c.downtime_alert_minutes

abbrev pub mirror_escalation : Thresholds → ℕ
mirror_escalation c = if ltb 0 c.mirror_escalate_after then c.mirror_escalate_after else 3

abbrev pub farm_silence : Thresholds → ℕ
farm_silence c = or_ten c.farm_silence_minutes

module _ (is_source : Bytes → Bool) (clean : Bytes → Bytes) where
  -- The loop of `ValidateEventFeeds` from an index on, with the sources and the paths before it.
  unfoldable pub validate_from :
      ℕ → List Bytes → List Bytes → List EventFeed → Result FeedError (Unit {0})
  validate_from i sources paths [] = ok tt
  validate_from i sources paths (f ∷ fs) = do
    refuse_if (is_empty f.path) (empty_path i)
    refuse_if (not (is_source f.source)) (malformed_source i)
    refuse_if (key_listed f.source reserved_sources) (reserved_source i)
    refuse_if (key_listed f.source sources) (source_used_twice i)
    refuse_if (key_listed (clean f.path) paths) (path_used_twice i)
    validate_from (i + 1) (f.source ∷ sources) (clean f.path ∷ paths) fs

  -- `ValidateEventFeeds`
  unfoldable pub validate_event_feeds : List EventFeed → Result FeedError (Unit {0})
  validate_event_feeds feeds = validate_from 0 [] [] feeds

  -- No source of the feeds and no path is used before.
  abbrev pub AreFresh : List Bytes → List Bytes → List EventFeed → Type 0
  AreFresh sources paths [] = Unit
  AreFresh sources paths (f ∷ fs) =
      (is_empty f.path ≡ false)
      × (is_source f.source ≡ true)
      × (key_listed f.source reserved_sources ≡ false)
      × (key_listed f.source sources ≡ false)
      × (key_listed (clean f.path) paths ≡ false)
      × AreFresh (f.source ∷ sources) (clean f.path ∷ paths) fs

  not-false : (b : Bool) → not b ≡ false → b ≡ true
  not-false true h = refl
  not-false false h = cc

  validate_from-AreFresh :
      (i : ℕ) (sources paths : List Bytes) (feeds : List EventFeed)
      → validate_from i sources paths feeds ≡ ok tt
      → AreFresh sources paths feeds
  unfolding validate_from
  validate_from-AreFresh i sources paths [] h = tt
  validate_from-AreFresh i sources paths (f ∷ fs) h =
      let (named, h1) = refused-then (is_empty f.path) (empty_path i) _ h in
      let (formed, h2) = refused-then (not (is_source f.source)) (malformed_source i) _ h1 in
      let (own, h3) =
        refused-then (key_listed f.source reserved_sources) (reserved_source i) _ h2 in
      let (new_source, h4) =
        refused-then (key_listed f.source sources) (source_used_twice i) _ h3 in
      let (new_path, h5) =
        refused-then (key_listed (clean f.path) paths) (path_used_twice i) _ h4 in
      (
        named,
        not-false (is_source f.source) formed,
        own,
        new_source,
        new_path,
        validate_from-AreFresh (i + 1) (f.source ∷ sources) (clean f.path ∷ paths) fs h5,
      )

  -- In a list of feeds that passes the check, every feed has a path and a source of the right form that
  -- is not reserved, and neither its source nor its cleaned path is that of an earlier feed.
  pub validate_event_feeds-AreFresh :
      (feeds : List EventFeed) → validate_event_feeds feeds ≡ ok tt → AreFresh [] [] feeds
  unfolding validate_event_feeds
  validate_event_feeds-AreFresh feeds h = validate_from-AreFresh 0 [] [] feeds h
