-- ===== src/Pbft/Json/Keys.antt =====
-- The maps by peer IDs, which JSON has by the texts of the IDs: the loops of serialization.go over them.
use b7s.Common.{[], ◌∷◌, ◌++◌, Option, none, some, ◌≡◌, ◌≢◌, refl, sym, ap, arith, All, ◌∙◌}
use mathlib.Core.List.{append_assoc, append-nil}
use b7s.Common.Text.{Text, text_eq}
use b7s.Common.Map.{Map, lookup, insert, lookup-insert}
use b7s.Common.Map.Count.{Distinct}
use b7s.Common.Map.Values.{insert-All}
use b7s.Models.{PeerId}
use b7s.Pbft.Json.{◌>>=◌}
use b7s.Pbft.Json.Collections.{insert-new, lookup-apart}

module _ (peer_text : PeerId → Text) (decode : Text → Option PeerId) where
  -- The text of the ID can be read.
  abbrev pub Decodes : PeerId → Type 0
  Decodes id = decode (peer_text id) ≡ some id

  Decodes-injective : (a b : PeerId) → Decodes a → Decodes b → peer_text a ≡ peer_text b → a ≡ b
  Decodes-injective a b p q e = cc

module _ {A : Type 0} where
  unfoldable pub by_text : (PeerId → Text) → Map PeerId A → Map Text A → Map Text A
  by_text peer_text [] out = out
  by_text peer_text ((id, a) ∷ m) out = by_text peer_text m (insert (peer_text id) a out)

  unfoldable pub by_id : (Text → Option PeerId) → Map Text A → Map PeerId A → Option (Map PeerId A)
  by_id decode [] out = some out
  by_id decode ((key, a) ∷ m) out = decode key >>= λ id. by_id decode m (insert id a out)

  module _ (peer_text : PeerId → Text) (decode : Text → Option PeerId) where
    -- The map with the texts in place of the IDs.
    abbrev texts : Map PeerId A → Map Text A
    texts [] = []
    texts ((id, a) ∷ m) = (peer_text id, a) ∷ texts m

    abbrev nothing : (K : Type 0) → Map K A
    nothing K = []

    abbrev IsNew : Map Text A → Map PeerId A → Type 0
    IsNew out m = All (λ x. lookup (peer_text x.0) out ≡ none) m

    -- An entry keeps the keys of the rest new.
    IsNew-insert :
        (id : PeerId) (a : A) (out : Map Text A) (m : Map PeerId A)
        → Decodes peer_text decode id
        → All (λ x. Decodes peer_text decode x.0) m
        → All (λ x. x.0 ≢ id) m
        → IsNew out m
        → IsNew (insert (peer_text id) a out) m
    IsNew-insert id a out [] d ds n h = tt
    IsNew-insert id a out ((j, b) ∷ m) d ds n h = (
      ground (
        arith,
        lookup-insert (peer_text id) (peer_text j) a out,
        text_eq.beq_iff (peer_text id) (peer_text j),
        Decodes-injective peer_text decode id j d ds.0,
        n.0,
        h.0,
      ),
      IsNew-insert id a out m d ds.1 n.1 h.1,
    )

    by_text-texts :
        (m : Map PeerId A) (out : Map Text A)
        → Distinct m
        → All (λ x. Decodes peer_text decode x.0) m
        → IsNew out m
        → by_text peer_text m out ≡ out ++ texts m
    unfolding by_text
    by_text-texts [] out d ds n = sym (append-nil out)
    by_text-texts ((id, a) ∷ m) out d ds n =
        by_text-texts m (insert (peer_text id) a out) d.1 ds.1
          (IsNew-insert id a out m ds.0 ds.1 (lookup-apart id m d.0) n.1)
        ∙ rw (insert-new (peer_text id) a out n.0)
            (append_assoc out ((peer_text id, a) ∷ []) (texts m))

    still_new :
        (id : PeerId) (a : A) (out m : Map PeerId A)
        → All (λ x. x.0 ≢ id) m
        → All (λ x. lookup x.0 out ≡ none) m
        → All (λ x. lookup x.0 (insert id a out) ≡ none) m
    still_new id a out [] n h = tt
    still_new id a out ((j, b) ∷ m) n h = (
      ground (arith, lookup-insert id j a out, text_eq.beq_iff id j, n.0, h.0),
      still_new id a out m n.1 h.1,
    )

    by_id-texts :
        (m out : Map PeerId A)
        → Distinct m
        → All (λ x. Decodes peer_text decode x.0) m
        → All (λ x. lookup x.0 out ≡ none) m
        → by_id decode (texts m) out ≡ some (out ++ m)
    unfolding by_id ◌>>=◌
    by_id-texts [] out d ds n = ap some (sym (append-nil out))
    by_id-texts ((id, a) ∷ m) out d ds n = rw ds.0 (
        by_id-texts m (insert id a out) d.1 ds.1 (still_new id a out m (lookup-apart id m d.0) n.1)
        ∙ ap some (rw (insert-new id a out n.0) (append_assoc out ((id, a) ∷ []) m)))

    All-new : (m : Map PeerId A) → All (λ x. lookup x.0 (nothing PeerId) ≡ none) m
    unfolding lookup
    All-new [] = tt
    All-new (x ∷ m) = (refl, All-new m)

    texts-IsNew : (m : Map PeerId A) → IsNew [] m
    unfolding lookup
    texts-IsNew [] = tt
    texts-IsNew (x ∷ m) = (refl, texts-IsNew m)

    pub by_id-by_text :
        (m : Map PeerId A)
        → Distinct m
        → All (λ x. Decodes peer_text decode x.0) m
        → by_id decode (by_text peer_text m []) [] ≡ some m
    by_id-by_text m d ds =
        rw (by_text-texts m [] d ds (texts-IsNew m)) (by_id-texts m [] d ds (All-new m))

  -- A property of the values is kept.
  pub by_text-All :
      (P : A → Type 0) (peer_text : PeerId → Text) (m : Map PeerId A) (out : Map Text A)
      → All (λ x. P x.1) m
      → All (λ x. P x.1) out
      → All (λ x. P x.1) (by_text peer_text m out)
  unfolding by_text
  by_text-All P peer_text [] out h o = o
  by_text-All P peer_text ((id, a) ∷ m) out h o =
      by_text-All P peer_text m (insert (peer_text id) a out) h.1
        (insert-All P (peer_text id) a out h.0 o)
