-- ===== src/Episodes/Texts.antt =====
-- The texts that the manager stores and asks for, and how it finds a cluster of resources.
use agent_arena.Prelude.{
  ℕ, suc, String, List, [], ◌∷◌, ◌++◌, ◌++ₛ◌, map, Option, none, some, length, leb, nat_beq,
  if◌then◌else◌, string_key,
}
use agent_arena.Prelude.DictKeys.{add_key}
use agent_arena.Prelude.Floats.{Floats}
use agent_arena.Prelude.Int.{ℤ, pos}
use agent_arena.Prelude.Sort.{sort_by}
use agent_arena.Prelude.Text.{join, str_leb}
use agent_arena.Schemas.{Position}
use agent_arena.Schemas.Percepts.{ResourceInfo, HazardInfo}
use agent_arena.Schemas.Observation.{Observation}
use agent_arena.Episodes.{resource_cluster_min}

-- Python's formatting: `f"{x:.nf}"`, `f"{x}"` of a float and of an integer; and `set_order`, the
-- order in which a set of strings is iterated.
pub record Format (F : Type 0) : Type 0 where
  pub fixed : ℕ → F → String
  pub of_float : F → String
  pub of_int : ℤ → String
  pub set_order : List String → List String

-- `sorted(set(xs))`
unfoldable pub distinct : List String → List String
distinct [] = []
distinct (x ∷ xs) = add_key (distinct xs) x

unfoldable pub sorted_set : List String → List String
unfolding distinct
sorted_set xs = sort_by str_leb (distinct xs)

module _ {F : Type 0} (f : Format F) where
  -- `[{x:.1f}, {y:.1f}, {z:.1f}]`
  abbrev pub at_position : Position F → String
  at_position p =
      "[" ++ₛ f.fixed 1 p.0 ++ₛ ", " ++ₛ f.fixed 1 p.1 ++ₛ ", " ++ₛ f.fixed 1 p.2 ++ₛ "]"

  unfoldable pub hazard_text : HazardInfo F → String
  hazard_text h =
      "Discovered hazard type '"
      ++ₛ h.kind
      ++ₛ "' ("
      ++ₛ h.name
      ++ₛ ") at position "
      ++ₛ at_position h.position
      ++ₛ ", damage="
      ++ₛ f.of_float h.damage
      ++ₛ ". Distance was "
      ++ₛ f.fixed 1 h.distance
      ++ₛ "."

module _ {F : Type 0} (f : Format F) ⦃fl : Floats F⦄ where
  abbrev if_any : List String → String → List String
  if_any [] s = []
  if_any xs s = (s ++ₛ join ", " xs) ∷ []

  -- `_build_situation_query`
  unfoldable pub build_situation_query : Observation F → String
  unfolding sorted_set
  build_situation_query o = join ". " (
      ("Agent at position " ++ₛ at_position f o.position)
        ∷ ("health=" ++ₛ f.fixed 0 o.health ++ₛ " energy=" ++ₛ f.fixed 0 o.energy)
        ∷ if_any (sorted_set (map (λ r. r.kind) o.nearby_resources)) "nearby resources: "
      ++ if_any (sorted_set (map (λ h. h.kind) o.nearby_hazards)) "nearby hazards: "
      ++ (if fl.lt o.health (fl.of_int (pos 50))
          then "low health, need to be careful" ∷ []
          else []))

-- The Euclidean distance, as `math.sqrt(sum(...))` computes it.
module _ {F : Type 0} ⦃fl : Floats F⦄ where
  abbrev pub square : F → F
  square x = fl.mul x x

  unfoldable pub euclid : Position F → Position F → F
  euclid p q = fl.sqrt (
      fl.add
        (fl.add (fl.add (fl.of_int (pos 0)) (square (fl.sub p.0 q.0))) (square (fl.sub p.1 q.1)))
        (square (fl.sub p.2 q.2)))

  -- the resources `r2` of the inner loop, whose index is not `i`, that are near `r1`
  unfoldable pub near_others :
      F → ℕ → ResourceInfo F → ℕ → List (ResourceInfo F) → List (ResourceInfo F)
  unfolding euclid
  near_others radius i r1 j [] = []
  near_others radius i r1 j (r2 ∷ rs) =
      let rest = near_others radius i r1 (suc j) rs in
      if nat_beq i j
      then rest
      else if fl.lt (euclid r1.position r2.position) radius
      then r2 ∷ rest
      else rest

  -- the outer loop: the first cluster with enough resources
  unfoldable pub find_cluster :
      F → List (ResourceInfo F) → ℕ → List (ResourceInfo F) → Option (List (ResourceInfo F))
  unfolding near_others
  find_cluster radius all i [] = none
  find_cluster radius all i (r1 ∷ rs) =
      let cluster = r1 ∷ near_others radius i r1 0 all in
      let rest = find_cluster radius all (suc i) rs in
      if leb resource_cluster_min (length cluster) then some cluster else rest

  abbrev sum_of : List F → F → F
  sum_of [] acc = acc
  sum_of (x ∷ xs) acc = sum_of xs (fl.add acc x)

  -- `sum(r.position[k] for r in cluster) / len(cluster)`
  unfoldable pub mean : List F → F
  mean xs = fl.div (sum_of xs (fl.of_int (pos 0))) (fl.of_int (pos (length xs)))

module _ {F : Type 0} (f : Format F) ⦃fl : Floats F⦄ where
  unfoldable pub cluster_text : List (ResourceInfo F) → String
  unfolding sorted_set mean
  cluster_text cluster =
      "Found resource cluster of "
      ++ₛ f.of_int (pos (length cluster))
      ++ₛ " resources ("
      ++ₛ join ", " (sorted_set (map (λ r. r.kind) cluster))
      ++ₛ ") near position "
      ++ₛ at_position f (
        mean (map (λ r. r.position.0) cluster),
        mean (map (λ r. r.position.1) cluster),
        mean (map (λ r. r.position.2) cluster),
      )
      ++ₛ "."

  abbrev found_text : Option (List (ResourceInfo F)) → Option String
  found_text none = none
  found_text (some cluster) = some (cluster_text cluster)

  -- `_detect_resource_cluster`, with RESOURCE_CLUSTER_RADIUS
  unfoldable pub detect_resource_cluster : F → Observation F → Option String
  unfolding find_cluster
  detect_resource_cluster radius o =
      found_text (find_cluster radius o.nearby_resources 0 o.nearby_resources)
