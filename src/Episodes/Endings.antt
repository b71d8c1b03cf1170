-- ===== src/Episodes/Endings.antt =====
-- `on_episode_end`: the summary, the learnings, the cap and the saving; and the prompt's lines.
use agent_arena.Prelude.{
  ℕ, ◌+◌, String, not, List, [], ◌∷◌, ◌++◌, ◌++ₛ◌, Option, none, some, if◌then◌else◌, string_key,
  ◌==◌,
}
use agent_arena.Prelude.Floats.{Floats}
use agent_arena.Prelude.Int.{pos}
use agent_arena.Prelude.IntRange.{int_leb}
use agent_arena.Prelude.Json.{Json, Fields, str, int, float, done, field, get_field}
use agent_arena.Prelude.Result.{Result, ok, raise, ◌>>=◌}
use agent_arena.Prelude.Text.{join}
use agent_arena.LongTerm.{Hit}
use agent_arena.LongTerm.Files.{Shelf, save}
use agent_arena.Schemas.Observation.{Observation}
use agent_arena.Episodes.{EpisodeManager, Surroundings, store_if_novel, enforce_memory_cap}
use agent_arena.Episodes.Events.{event_metadata}
use agent_arena.Episodes.Texts.{Format, at_position}

pub record Learning : Type 0 where
  pub category : String
  pub text : String

-- `s or "none"`
abbrev or_none_text : String → String
or_none_text s = if s == "" then "none" else s

module _ {I V F : Type 0} (f : Format F) where
  -- `_build_episode_summary`
  unfoldable pub build_episode_summary : Observation F → EpisodeManager I V F → String
  build_episode_summary o m =
      "Episode "
      ++ₛ f.of_int (pos m.episode_number)
      ++ₛ " summary: Lasted "
      ++ₛ f.of_int (pos m.episode_max_tick)
      ++ₛ " ticks. Collected "
      ++ₛ f.of_int m.episode_resources_collected
      ++ₛ " resources. Took "
      ++ₛ f.fixed 0 m.episode_total_damage
      ++ₛ " total damage. Final health: "
      ++ₛ f.fixed 0 o.health
      ++ₛ ". Hazard types encountered: "
      ++ₛ or_none_text (join ", " (f.set_order m.episode_hazard_types_seen))
      ++ₛ "."

module _ {I V F : Type 0} where
  abbrev pub summary_metadata : Observation F → EpisodeManager I V F → Fields F
  summary_metadata o m = event_metadata "episode_summary" m.episode_number (
      field "ticks" (int (pos m.episode_max_tick)) (
        field "final_health" (float o.health) (
          field "resources_collected" (int m.episode_resources_collected)
            (field "damage_taken" (float m.episode_total_damage) done))))

module _ {I V F : Type 0} (f : Format F) ⦃fl : Floats F⦄ where
  -- `_extract_learnings`
  unfoldable pub extract_learnings : Observation F → EpisodeManager I V F → List Learning
  extract_learnings o m =
      (if fl.lt (fl.of_int (pos 50)) m.episode_total_damage
        then (record {
          category = "strategy";
          text =
              "In episode "
              ++ₛ f.of_int (pos m.episode_number)
              ++ₛ ", took heavy damage ("
              ++ₛ f.fixed 0 m.episode_total_damage
              ++ₛ " total). Should be more cautious around hazards.";
        })
          ∷ []
        else [])
      ++ (if not (int_leb m.episode_resources_collected (pos 5))
          then (record {
            category = "strategy";
            text =
                "Episode "
                ++ₛ f.of_int (pos m.episode_number)
                ++ₛ " was productive: collected "
                ++ₛ f.of_int m.episode_resources_collected
                ++ₛ " resources in "
                ++ₛ f.of_int (pos m.episode_max_tick)
                ++ₛ " ticks.";
          })
            ∷ []
          else [])
      ++ (if fl.le o.health (fl.of_int (pos 0))
          then (record {
            category = "survival";
            text =
                "Died in episode "
                ++ₛ f.of_int (pos m.episode_number)
                ++ₛ " at position "
                ++ₛ at_position f o.position
                ++ₛ " after "
                ++ₛ f.of_int (pos m.episode_max_tick)
                ++ₛ " ticks. Need to prioritize survival over resource collection.";
          })
            ∷ []
          else [])

module _ {I V F : Type 0} (e : Surroundings I V F) ⦃fl : Floats F⦄ where
  abbrev pub learning_metadata : String → EpisodeManager I V F → Fields F
  learning_metadata category m =
      event_metadata "learning" m.episode_number (field "category" (str category) done)

  unfoldable pub store_learnings :
      List Learning → EpisodeManager I V F → Result (EpisodeManager I V F)
  unfolding store_if_novel
  store_learnings [] m = ok m
  store_learnings (l ∷ ls) m =
      store_if_novel e l.text (learning_metadata l.category m) m >>= store_learnings ls

module _ {I F : Type 0} where
  abbrev swallow : Shelf I F → Result (Shelf I F) → Shelf I F
  swallow disk (ok disk') = disk'
  swallow disk (raise e) = disk

module _ {I V F : Type 0} where
  -- `EpisodeMemoryManager.save`, which logs and swallows what `LongTermMemory.save` raises
  unfoldable pub save_memories :
      (String → String → String) → EpisodeManager I V F → Shelf I F → Shelf I F
  unfolding save
  save_memories with_suffix m disk = swallow disk (save with_suffix none m.ltm disk)

module _ {I V F : Type 0} (e : Surroundings I V F) (f : Format F) ⦃fl : Floats F⦄ where
  -- the part of `on_episode_end` before the saving
  unfoldable pub conclude : Observation F → EpisodeManager I V F → Result (EpisodeManager I V F)
  unfolding store_learnings build_episode_summary extract_learnings enforce_memory_cap
  conclude o m = do
    summarized ← store_if_novel e (build_episode_summary f o m) (summary_metadata o m) m
    learned ← store_learnings e (extract_learnings f o summarized) summarized
    enforce_memory_cap e learned

  unfoldable pub on_episode_end :
      (String → String → String)
      → Observation F
      → Shelf I F
      → EpisodeManager I V F
      → Result (EpisodeManager I V F × Shelf I F)
  unfolding conclude save_memories
  on_episode_end with_suffix o disk m =
      conclude o m >>= λ m'. ok (m', save_memories with_suffix m' disk)

module _ {F : Type 0} (f : Format F) (show : Json F → String) where
  abbrev shown : Option (Json F) → String
  shown none = "?"
  shown (some j) = show j

  abbrev memory_line : ℕ → Hit F → String
  memory_line i h =
      "  "
      ++ₛ f.of_int (pos i)
      ++ₛ ". [Ep."
      ++ₛ shown (get_field h.memory.metadata "episode")
      ++ₛ ", relevance="
      ++ₛ f.fixed 2 h.score
      ++ₛ "] "
      ++ₛ h.memory.text

  abbrev memory_lines : ℕ → List (Hit F) → List String
  memory_lines i [] = []
  memory_lines i (h ∷ hs) = memory_line i h ∷ memory_lines (i + 1) hs

  unfoldable pub format_memories_for_prompt : List (Hit F) → String
  format_memories_for_prompt [] = "No relevant past experiences."
  format_memories_for_prompt hits = join "\n" (memory_lines 1 hits)
