-- ===== src/Sightings/Uncollected.antt =====
-- `find_uncollected_resources`.
use mathlib.Core.List.{Memᴰ}
use agent_arena.Prelude.{
  and_iff, ℕ, String, Bool, true, not, ◌&&◌, ◌≡◌, ◌↔◌, sym, ap, ◌∙◌, [], ◌∷◌, map, some, mem-keep,
  string_key, arith,
}
use agent_arena.Prelude.Dict.{get, IsDict, get_of_mem, mem_of_get}
use agent_arena.Prelude.DictKeys.{contains}
use agent_arena.Prelude.Int.{ℤ}
use agent_arena.Prelude.Sort.{
  descending, descending-IsOrder, mem-sort_by, sort_by-IsSorted, IsSorted,
}
use agent_arena.Schemas.{Position}
use agent_arena.Sightings.{
  Memory, Sighting, Seen, resources_of, sighting, seen_in, find_resources_seen, is_recent,
  find_uncollected_resources,
}
use agent_arena.Sightings.Recall.{last, stream, get-seen_in, seen_in-IsDict}

module _ {F : Type 0} where
  entry_of_mem-sighting :
      (d : Seen F) (s : Sighting F)
      → Memᴰ s (map sighting d)
      → Memᴰ (s.name, (s.position, s.tick)) d
  entry_of_mem-sighting [] s m = elim m [ ]
  entry_of_mem-sighting ((n, (p, t)) ∷ d) s (Memᴰ.head e) =
      Memᴰ.head (ap (λ (x : Sighting F). (x.name, (x.position, x.tick))) e)
  entry_of_mem-sighting ((n, (p, t)) ∷ d) s (Memᴰ.tail m) = Memᴰ.tail (entry_of_mem-sighting d s m)

  mem-sighting_of_entry :
      (d : Seen F) (s : Sighting F)
      → Memᴰ (s.name, (s.position, s.tick)) d
      → Memᴰ s (map sighting d)
  mem-sighting_of_entry [] s m = elim m [ ]
  mem-sighting_of_entry (e ∷ d) s (Memᴰ.head h) =
      Memᴰ.head (ap (λ (x : String × (Position F × ℕ)). sighting x) h)
  mem-sighting_of_entry (e ∷ d) s (Memᴰ.tail m) = Memᴰ.tail (mem-sighting_of_entry d s m)

  -- The last sighting of its name in the window.
  abbrev pub IsLast : Memory F → Sighting F → Type 0
  IsLast m s = last s.name (stream resources_of m.observations) ≡ some (s.position, s.tick)

  abbrev table : Memory F → Seen F
  table m = seen_in resources_of m.observations []

  get-table :
      (m : Memory F) (name : String)
      → get (table m) name ≡ last name (stream resources_of m.observations)
  unfolding get
  get-table m name = get-seen_in name resources_of m.observations [] ∙ ground arith

  table-IsDict : (m : Memory F) → IsDict (table m)
  table-IsDict m = seen_in-IsDict resources_of m.observations [] tt

  mem-find_resources_seen :
      (m : Memory F) (s : Sighting F) → Memᴰ s (find_resources_seen m) ↔ IsLast m s
  unfolding find_resources_seen
  mem-find_resources_seen m s = (
    λ n.
        sym (get-table m s.name)
        ∙ get_of_mem (table m) s.name (s.position, s.tick) (table-IsDict m)
            (entry_of_mem-sighting (table m) s n),
    λ h.
        mem-sighting_of_entry (table m) s
          (mem_of_get (table m) s.name (s.position, s.tick) (get-table m s.name ∙ h)),
  )

  -- `find_uncollected_resources` returns exactly the last sightings in the window of the resources that
  -- were not collected, as far as they are less than `recency` ticks old, the latest first.
  pub find_uncollected_resources_exact :
      (m : Memory F) (current_tick : ℕ) (recency : ℤ)
      → IsSorted (descending (λ s. s.tick)) (find_uncollected_resources m current_tick recency)
        × ((s : Sighting F)
            → Memᴰ s (find_uncollected_resources m current_tick recency) ↔ (
                IsLast m s
                × (not (contains m.collected s.name) ≡ true)
                × (is_recent current_tick recency s ≡ true)))
  unfolding find_uncollected_resources
  find_uncollected_resources_exact m current_tick recency = (
    sort_by-IsSorted _ (descending-IsOrder (λ (s : Sighting F). s.tick)) _,
    λ s.
        let test : Sighting F → Bool =
          λ x. not (contains m.collected x.name) && is_recent current_tick recency x in
        let (kept, keeps) = mem-keep test s (find_resources_seen m) in
        let (split, join) =
          and_iff (not (contains m.collected s.name)) (is_recent current_tick recency s) in
        let (found, lists) = mem-find_resources_seen m s in
        (
          λ n.
              let (there, passed) = kept ((mem-sort_by (descending (λ x. x.tick)) s _).0 n) in
              let (a, b) = split passed in (found there, a, b),
          λ (h, a, b).
              (mem-sort_by (descending (λ x. x.tick)) s _).1 (keeps (lists h, join (a, b))),
        ),
  )
