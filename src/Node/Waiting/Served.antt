-- ===== src/Node/Waiting/Served.antt =====
-- A call that waits gets the next value for its key.
use b7s.Common.{
  ℕ, List, [], ◌∷◌, ◌++◌, false, none, ◌≡◌, ◌≢◌, refl, arith, Eq, ◌==◌, if◌then◌else◌, In, inl, inr,
  Option-cases, Bool-cases, beq_refl, eq_of_beq,
}
use b7s.Common.Map.{Map, insert, erase, lookup-insert, lookup-erase}
use b7s.Node.Waiting.{
  Cache, WaitMap, subscribers, send_each, set, wait, get, WaitEvent, sets, waits, gets, step, run,
}

In-end : {A : Type 0} (a : A) (xs : List A) → In a (xs ++ a ∷ [])
In-end a [] = inl refl
In-end a (x ∷ xs) = inr (In-end a xs)

In-front : {A : Type 0} (a : A) (xs ys : List A) → In a xs → In a (xs ++ ys)
In-front a [] ys i = absurd i
In-front a (x ∷ xs) ys (inl e) = inl e
In-front a (x ∷ xs) ys (inr i) = inr (In-front a xs ys i)

module _ {K V : Type 0} ⦃e : Eq K⦄ (c : Cache K V) where
  -- No event sets the key.
  abbrev pub Unset : K → List (WaitEvent c) → Type 0
  Unset key [] = Unit
  Unset key (sets other val ∷ events) = (other ≢ key) × Unset key events
  Unset key (event ∷ events) = Unset key events

  abbrev IsSubscribed : K → ℕ → WaitMap c → Type 0
  IsSubscribed key channel w = In channel (subscribers c key w.subs)

  send_each_kept :
      (channels : List ℕ) (val : V) (out : List (ℕ × V)) (sent : ℕ × V)
      → In sent out
      → In sent (send_each c channels val out)
  unfolding send_each
  send_each_kept [] val out sent i = i
  send_each_kept (channel ∷ channels) val out sent i =
      send_each_kept channels val ((channel, val) ∷ out) sent (inr i)

  send_each-In :
      (channels : List ℕ) (val : V) (out : List (ℕ × V)) (channel : ℕ)
      → In channel channels
      → In (channel, val) (send_each c channels val out)
  unfolding send_each
  send_each-In [] val out channel i = absurd i
  send_each-In (other ∷ channels) val out channel (inl q) =
      send_each_kept channels val ((other, val) ∷ out) (channel, val) (inl (rw q refl))
  send_each-In (other ∷ channels) val out channel (inr i) =
      send_each-In channels val ((other, val) ∷ out) channel i

  subscribers-insert :
      (key j : K) (channels : List ℕ) (m : Map K (List ℕ))
      → subscribers c j (insert key channels m) ≡ (if key == j then channels else subscribers c j m)
  unfolding subscribers
  subscribers-insert key j channels m = ground (arith, lookup-insert key j channels m)

  subscribers-erase :
      (key j : K) (m : Map K (List ℕ))
      → subscribers c j (erase key m) ≡ (if key == j then [] else subscribers c j m)
  unfolding subscribers
  subscribers-erase key j m = ground (arith, lookup-erase key j m)

  wait-IsSubscribed :
      (key : K) (channel : ℕ) (w : WaitMap c)
      → (wait c key channel w).0 ≡ none
      → IsSubscribed key channel (wait c key channel w).1
  unfolding wait
  wait-IsSubscribed key channel w h = elim (Option-cases (c.get key w.cache).0) [
    | inr (val, q) ↦ ground arith
    | inl q ↦
        rw (wait, q, subscribers-insert, beq_refl key) (In-end channel (subscribers c key w.subs))
  ]

  wait-stays :
      (key : K) (channel : ℕ) (other : K) (mine : ℕ) (w : WaitMap c)
      → IsSubscribed other mine w
      → IsSubscribed other mine (wait c key channel w).1
  unfolding wait
  wait-stays key channel other mine w i = elim (Option-cases (c.get key w.cache).0) [
    | inr (val, q) ↦ rw (wait, q) i
    | inl q ↦
        rw (wait, q, subscribers-insert)
          (elim (Bool-cases (key == other)) [
            | inr n ↦ rw n i
            | inl y ↦ rw y (
                In-front mine (subscribers c key w.subs) (channel ∷ [])
                  (rw (eq_of_beq key other y) i))
          ])
  ]

  differs : (j k : K) → j ≢ k → (j == k) ≡ false
  differs j k n = ground (arith, e.beq_iff j k)

  wait-delivered :
      (key : K) (channel : ℕ) (w : WaitMap c) → (wait c key channel w).1.delivered ≡ w.delivered
  unfolding wait
  wait-delivered key channel w = ground arith

  run-IsSubscribed :
      (key : K) (channel : ℕ) (events : List (WaitEvent c)) (w : WaitMap c)
      → Unset key events
      → IsSubscribed key channel w
      → IsSubscribed key channel (run c events w)
  unfolding run step set get
  run-IsSubscribed key channel [] w u i = i
  run-IsSubscribed key channel (sets other val ∷ events) w u i =
      run-IsSubscribed key channel events (set c other val w) u.1
        (rw (subscribers-erase, differs other key u.0) i)
  run-IsSubscribed key channel (waits other mine ∷ events) w u i =
      run-IsSubscribed key channel events (wait c other mine w).1 u
        (wait-stays other mine key channel w i)
  run-IsSubscribed key channel (gets other ∷ events) w u i =
      run-IsSubscribed key channel events (get c other w).1 u i

  run_delivered :
      (events : List (WaitEvent c)) (w : WaitMap c) (sent : ℕ × V)
      → In sent w.delivered
      → In sent (run c events w).delivered
  unfolding run step set get wait
  run_delivered [] w sent i = i
  run_delivered (sets other val ∷ events) w sent i =
      run_delivered events (set c other val w) sent (send_each_kept _ val w.delivered sent i)
  run_delivered (waits other mine ∷ events) w sent i =
      run_delivered events (wait c other mine w).1 sent (rw (wait-delivered other mine w) i)
  run_delivered (gets other ∷ events) w sent i = run_delivered events (get c other w).1 sent i

  -- A call that has to wait for a key gets, on its own channel, the first value that is set for the key
  -- after that, whatever happens for other keys in between and whatever comes later.
  pub wait-set :
      (key : K) (channel : ℕ) (val : V) (before after : List (WaitEvent c)) (w : WaitMap c)
      → (wait c key channel w).0 ≡ none
      → Unset key before
      → In
          (channel, val)
          (run c after (set c key val (run c before (wait c key channel w).1))).delivered
  unfolding set
  wait-set key channel val before after w h u =
      run_delivered after _ (channel, val)
        (send_each-In _ val _ channel (
          run-IsSubscribed key channel before (wait c key channel w).1 u
            (wait-IsSubscribed key channel w h)))
