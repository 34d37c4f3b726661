-- ===== src/Repository/Reach.antt =====
-- pkg/repository/repository.go without a storage, over its life: the interfaces `Repository` and `Query`
-- as steps, any of which may come next.
use ff_golang_server_sdk.Common.{
  String, ◌≡◌, ◌≢◌, refl, sym, ap, ◌∙◌, Bool, true, false, Option, none, List, if◌then◌else◌,
}
use ff_golang_server_sdk.Common.Run.{Run, ret, panic, no_fuel, ◌>>=◌, Result, Returns}
use ff_golang_server_sdk.Errors.{Error}
use ff_golang_server_sdk.Rest.{FeatureConfig, Segment}
use ff_golang_server_sdk.Repository.{
  Cache, Storage, Call, Kind, Repository, flags, segments, outdated_by, called, set_item,
  delete_item, get_and_cache, new, set_flag, set_segment, get_flag, get_segment, delete_flag,
  delete_segment,
}
use ff_golang_server_sdk.Repository.View.{
  CacheLaws, IsKind, IsTyped, cached, view, answer, after_write, set_item-view, get_and_cache-view,
  flags-IsKind, segments-IsKind,
}
use ff_golang_server_sdk.Repository.Typed.{
  IsApart, flags-IsApart, segments-IsApart, get-IsTyped, remove-IsTyped, after_write-IsTyped,
  after_write-other, set_item-IsTyped,
}

-- A call of the interfaces that comes back, one call at a time.
pub data Step (c : Cache) (s : Storage) : Repository c s → Repository c s → Type 0 where
  flag_set :
      {r r' : Repository c s} (fc : FeatureConfig) → set_flag c s fc r ≡ ret r' → Step c s r r'
  segment_set :
      {r r' : Repository c s} (seg : Segment) → set_segment c s seg r ≡ ret r' → Step c s r r'
  flag_got :
      {r r' : Repository c s} (id : String) (x : Result Error FeatureConfig)
      → get_flag c s id r ≡ ret (x, r')
      → Step c s r r'
  segment_got :
      {r r' : Repository c s} (id : String) (x : Result Error Segment)
      → get_segment c s id r ≡ ret (x, r')
      → Step c s r r'
  flag_deleted : {r : Repository c s} (id : String) → Step c s r (delete_flag c s id r)
  segment_deleted : {r : Repository c s} (id : String) → Step c s r (delete_segment c s id r)

-- The states that a repository passes through.
pub data Reach (c : Cache) (s : Storage) (first : Repository c s) : Repository c s → Type 0 where
  at_first : Reach c s first first
  stepped : {r r' : Repository c s} → Reach c s first r → Step c s r r' → Reach c s first r'

module _ (c : Cache) (s : Storage) (laws : CacheLaws c) where
  module _ {A B : Type 0} (kind : Kind A) (other : Kind B) where
    -- Without a storage, and each kind under its own keys.
    record Sound (r : Repository c s) : Type 0 where
      pub state : c.State
      pub calls : Option (List Call)
      pub shape : r ≡ cached c s laws state calls
      pub typed : IsTyped c s laws kind state
      pub other_typed : IsTyped c s laws other state

    module _ (is_kind : IsKind kind) (apart : IsApart kind other) where
      get-Sound :
          (id : String) (cacheable : Bool) (x : Result Error A) (r r' : Repository c s)
          → Sound r
          → get_and_cache c s kind id cacheable r ≡ ret (x, r')
          → Sound r'
      get-Sound id cacheable x r r' sound h = record {
        state = (c.get sound.state (kind.format_key id)).1;
        calls = sound.calls;
        shape = cc (
          h,
          sound.shape,
          get_and_cache-view c s laws kind sound.state sound.calls id cacheable sound.typed,
        );
        typed = get-IsTyped c s laws kind sound.state (kind.format_key id) sound.typed;
        other_typed = get-IsTyped c s laws other sound.state (kind.format_key id) sound.other_typed;
      }

      abbrev verdict : A → c.State → Run Bool
      verdict a st =
          outdated_by c s kind
            (answer c s laws kind (kind.identifier a) (view c s laws kind st (kind.identifier a))) a

      set-Sound :
          (a : A) (r r' : Repository c s) → Sound r → set_item c s kind a r ≡ ret r' → Sound r'
      set-Sound a r r' sound h = by_verdict (verdict a sound.state) (
          sym (set_item-view c s laws kind sound.state sound.calls a sound.typed)
          ∙ sym (ap (set_item c s kind a) sound.shape)
          ∙ h)
        where
          key : String
          key = kind.format_key (kind.identifier a)

          by_verdict :
              (m : Run Bool)
              → (m >>= λ outdated. ret (
                  if outdated
                  then cached c s laws (c.get sound.state key).1 sound.calls
                  else cached c s laws
                      (after_write c s laws kind a sound.state)
                      (called c s sound.calls (kind.on_stored (kind.identifier a)))))
                ≡ ret r'
              → Sound r'
          by_verdict (ret true) e = record {
            state = (c.get sound.state key).1;
            calls = sound.calls;
            shape = cc e;
            typed = get-IsTyped c s laws kind sound.state key sound.typed;
            other_typed = get-IsTyped c s laws other sound.state key sound.other_typed;
          }
          by_verdict (ret false) e = record {
            state = after_write c s laws kind a sound.state;
            calls = called c s sound.calls (kind.on_stored (kind.identifier a));
            shape = cc e;
            typed = after_write-IsTyped c s laws kind is_kind sound.state a sound.typed;
            other_typed =
                after_write-other c s laws kind is_kind sound.state a other apart sound.other_typed;
          }
          by_verdict panic e = cc e
          by_verdict no_fuel e = cc e

      delete-Sound :
          (id : String) (r : Repository c s) → Sound r → Sound (delete_item c s kind id r)
      unfolding delete_item
      delete-Sound id r sound = record {
        state = (c.remove sound.state (kind.format_key id)).1;
        calls = called c s sound.calls (kind.on_deleted id);
        shape = ap (delete_item c s kind id) sound.shape;
        typed = remove-IsTyped c s laws kind sound.state (kind.format_key id) sound.typed;
        other_typed =
            remove-IsTyped c s laws other sound.state (kind.format_key id) sound.other_typed;
      }

      get-Returns :
          (id : String) (cacheable : Bool) (r : Repository c s)
          → Sound r
          → Returns (get_and_cache c s kind id cacheable r)
      get-Returns id cacheable r sound =
          rw
            (
              sound.shape,
              get_and_cache-view c s laws kind sound.state sound.calls id cacheable sound.typed,
            )
            tt

      set-Returns :
          (a : A) (r : Repository c s)
          → kind.version a ≢ none
          → Sound r
          → Returns (set_item c s kind a r)
      set-Returns a r versioned sound =
          let (st', calls', ran, typed, other_typed) =
            set_item-IsTyped c s laws kind is_kind sound.state a other sound.calls apart versioned
              sound.typed sound.other_typed in
          rw (sound.shape, ran) tt

  swapped :
      {A B : Type 0} (kind : Kind A) (other : Kind B) (r : Repository c s)
      → Sound kind other r
      → Sound other kind r
  swapped kind other r sound = record {
    state = sound.state;
    calls = sound.calls;
    shape = sound.shape;
    typed = sound.other_typed;
    other_typed = sound.typed;
  }

  abbrev IsSound : Repository c s → Type 0
  IsSound = Sound flags segments

  -- The steps on segments, in the other order of the kinds.
  by_segments :
      (r r' : Repository c s)
      → IsSound r
      → (Sound segments flags r → Sound segments flags r')
      → IsSound r'
  by_segments r r' sound step = swapped segments flags r' (step (swapped flags segments r sound))

  step-IsSound : {r r' : Repository c s} → Step c s r r' → IsSound r → IsSound r'
  unfolding set_flag set_segment get_flag get_segment delete_flag delete_segment
  step-IsSound (flag_set {r} {r'} fc h) sound =
      set-Sound flags segments flags-IsKind flags-IsApart fc r r' sound h
  step-IsSound (segment_set {r} {r'} seg h) sound =
      by_segments r r' sound
        λ x. set-Sound segments flags segments-IsKind segments-IsApart seg r r' x h
  step-IsSound (flag_got {r} {r'} id x h) sound =
      get-Sound flags segments flags-IsKind flags-IsApart id true x r r' sound h
  step-IsSound (segment_got {r} {r'} id x h) sound =
      by_segments r r' sound
        λ y. get-Sound segments flags segments-IsKind segments-IsApart id true x r r' y h
  step-IsSound (flag_deleted {r} id) sound =
      delete-Sound flags segments flags-IsKind flags-IsApart id r sound
  step-IsSound (segment_deleted {r} id) sound =
      by_segments r (delete_segment c s id r) sound
        λ y. delete-Sound segments flags segments-IsKind segments-IsApart id r y

  reach-IsSound : {first r : Repository c s} → Reach c s first r → IsSound first → IsSound r
  reach-IsSound at_first sound = sound
  reach-IsSound (stepped reach step) sound = step-IsSound step (reach-IsSound reach sound)

  new-IsSound : (st : c.State) → ((k : String) → laws.peek st k ≡ none) → IsSound (new c s st)
  unfolding new
  new-IsSound st blank = record {
    state = st;
    calls = none;
    shape = refl;
    typed = λ id item h. cc (h, blank (flags.format_key id));
    other_typed = λ id item h. cc (h, blank (segments.format_key id));
  }

  -- The type assertions of the repository never fail: from a new repository on an empty cache, whatever
  -- calls came back so far, one after the other and in whatever order, every read of a flag or of a segment returns, and so
  -- does every set of an item that has a version.
  pub reachable-Returns :
      (st : c.State) (r : Repository c s)
      → ((k : String) → laws.peek st k ≡ none)
      → Reach c s (new c s st) r
      → ((id : String) → Returns (get_flag c s id r) × Returns (get_segment c s id r))
        × ((fc : FeatureConfig) → fc.version ≢ none → Returns (set_flag c s fc r))
        × ((seg : Segment) → seg.version ≢ none → Returns (set_segment c s seg r))
  unfolding get_flag get_segment set_flag set_segment
  reachable-Returns st r blank reach =
      let sound = reach-IsSound reach (new-IsSound st blank) in
      let turned = swapped flags segments r sound in
      (
        λ id. (
          get-Returns flags segments flags-IsKind flags-IsApart id true r sound,
          get-Returns segments flags segments-IsKind segments-IsApart id true r turned,
        ),
        λ fc h. set-Returns flags segments flags-IsKind flags-IsApart fc r h sound,
        λ seg h. set-Returns segments flags segments-IsKind segments-IsApart seg r h turned,
      )
