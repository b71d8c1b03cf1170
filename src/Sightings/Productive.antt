-- ===== src/Sightings/Productive.antt =====
-- `find_productive_areas`: the positions of resources, grouped by their distance, whose squares do
-- not overflow.
use agent_arena.Prelude.{
  Bool, false, not, ◌&&◌, ◌||◌, List, [], ◌∷◌, ◌++◌, map, length, ltb, leb, if◌then◌else◌,
}
use agent_arena.Prelude.Floats.{Floats}
use agent_arena.Prelude.Int.{pos}
use agent_arena.Prelude.Sort.{sort_by, descending}
use agent_arena.Schemas.{Position}
use agent_arena.Schemas.Observation.{Observation}
use agent_arena.Sightings.{Memory}

module _ {F : Type 0} where
  -- every resource position of every observation
  unfoldable pub resource_positions : List (Observation F) → List (Position F)
  resource_positions [] = []
  resource_positions (o ∷ os) = map (λ r. r.position) o.nearby_resources ++ resource_positions os

  abbrev pub none_assigned : List (Position F) → List Bool
  none_assigned [] = []
  none_assigned (p ∷ ps) = false ∷ none_assigned ps

module _ {F : Type 0} ⦃fl : Floats F⦄ where
  -- `_distance`
  unfoldable pub distance : Position F → Position F → F
  distance p q =
      let dx = fl.sub p.0 q.0 in
      let dy = fl.sub p.1 q.1 in
      let dz = fl.sub p.2 q.2 in
      fl.sqrt (fl.add (fl.add (fl.mul dx dx) (fl.mul dy dy)) (fl.mul dz dz))

  abbrev is_near : Position F → Position F → Bool
  unfolding distance
  is_near p q = fl.lt (distance p q) (fl.of_int (pos 8))

  -- the inner loop over `j`: what joins the cluster of `p`, and the flags after it
  unfoldable pub joining : Position F → List (Position F) → List Bool → List (Position F)
  unfolding is_near
  joining p (q ∷ qs) (b ∷ bs) =
      let rest = joining p qs bs in if not b && is_near p q then q ∷ rest else rest
  joining p _ _ = []

  unfoldable pub assign : Position F → List (Position F) → List Bool → List Bool
  unfolding is_near
  assign p (q ∷ qs) (b ∷ bs) = (b || is_near p q) ∷ assign p qs bs
  assign p _ bs = bs

  abbrev if_cluster : List (Position F) → List (List (Position F)) → List (List (Position F))
  if_cluster cluster rest = if leb 2 (length cluster) then cluster ∷ rest else rest

  -- the outer loop over `i`, with the flags from `i` on
  unfoldable pub clusters : List (Position F) → List Bool → List (List (Position F))
  unfolding joining assign
  clusters (p ∷ ps) (b ∷ bs) =
      let rest = clusters ps (if b then bs else assign p ps bs) in
      if b then rest else if_cluster (p ∷ joining p ps bs) rest
  clusters _ _ = []

  abbrev sum_of : List F → F → F
  sum_of [] acc = acc
  sum_of (x ∷ xs) acc = sum_of xs (fl.add acc x)

  abbrev average : List F → F
  average xs = fl.div (sum_of xs (fl.of_int (pos 0))) (fl.of_int (pos (length xs)))

  -- `_centroid`
  unfoldable pub centroid : List (Position F) → Position F
  centroid ps =
      (average (map (λ p. p.0) ps), average (map (λ p. p.1) ps), average (map (λ p. p.2) ps))

  unfoldable pub find_productive_areas : Memory F → List (Position F)
  unfolding resource_positions clusters centroid
  find_productive_areas m =
      let positions = resource_positions m.observations in
      if ltb (length positions) 2
      then []
      else map centroid
          (sort_by (descending (λ c. length c)) (clusters positions (none_assigned positions)))
