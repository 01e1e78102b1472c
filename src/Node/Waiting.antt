-- ===== src/Node/Waiting.antt =====
-- The map on which the node waits for responses (node/internal/waitmap/waitmap.go). Each call that waits
-- has a channel of its own, known by a number; a call that gives up leaves its channel behind. The
-- bounded cache is the library's.
pub mod Served
use b7s.Common.{ℕ, List, [], ◌∷◌, ◌++◌, Option, none, some, ◌≡◌, Eq}
use b7s.Common.Map.{Map, lookup, insert, erase}

pub record Cache (K V : Type 0) : Type 1 where
  pub Entries : Type 0
  pub new : Entries
  pub add : K → V → Entries → Entries
  -- A read also marks the entry as used.
  pub get : K → Entries → Option V × Entries

module _ {K V : Type 0} ⦃e : Eq K⦄ (c : Cache K V) where
  pub record WaitMap : Type 0 where
    pub cache : c.Entries
    pub subs : Map K (List ℕ)
    -- What has been sent on the channels, newest first.
    pub delivered : List (ℕ × V)

  abbrev pub new_wait_map : WaitMap
  new_wait_map = record { cache = c.new; subs = []; delivered = [] }

  unfoldable pub subscribers : K → Map K (List ℕ) → List ℕ
  subscribers key subs = elim (lookup key subs) [ none ↦ [] | some channels ↦ channels ]

  unfoldable pub send_each : List ℕ → V → List (ℕ × V) → List (ℕ × V)
  send_each [] val out = out
  send_each (channel ∷ channels) val out = send_each channels val ((channel, val) ∷ out)

  unfoldable pub set : K → V → WaitMap → WaitMap
  set key val w = record {
    cache = c.add key val w.cache;
    subs = erase key w.subs;
    delivered = send_each (subscribers key w.subs) val w.delivered;
  }

  -- `Wait` and `WaitFor` up to the wait; `none` is to wait on the channel.
  unfoldable pub wait : K → ℕ → WaitMap → Option V × WaitMap
  wait key channel w =
      let (found, cache) = c.get key w.cache in
      elim found [
        | some val ↦ (some val, record w { cache = cache })
        | none ↦ (
          none,
          record w {
            cache = cache;
            subs = insert key (subscribers key w.subs ++ channel ∷ []) w.subs;
          },
        )
      ]

  unfoldable pub get : K → WaitMap → Option V × WaitMap
  get key w = let (found, cache) = c.get key w.cache in (found, record w { cache = cache })

  pub data WaitEvent : Type 0 where
    sets : K → V → WaitEvent
    waits : K → ℕ → WaitEvent
    gets : K → WaitEvent

  unfoldable pub step : WaitEvent → WaitMap → WaitMap
  step (sets key val) w = set key val w
  step (waits key channel) w = (wait key channel w).1
  step (gets key) w = (get key w).1

  unfoldable pub run : List WaitEvent → WaitMap → WaitMap
  run [] w = w
  run (event ∷ events) w = run events (step event w)
