-- ===== src/Dispatch/Laws.antt =====
-- The dispatcher's two dictionaries go together, and `execute_tool` reports what happened.
use mathlib.Core.List.{Memᴰ}
use agent_arena.Prelude.{
  String, true, false, ◌≡◌, ◌↔◌, refl, sym, ap, ◌∙◌, inl, inr, List, [], ◌∷◌, Option, none, some,
  string_key, beq_self, Bool-cases, Option-cases, if◌then◌else◌, arith,
}
use agent_arena.Prelude.Dict.{get, put, del, has, keys, is_some, get-put}
use agent_arena.Prelude.DictKeys.{
  has-keys, keys-put, keys-del, del-put, contains, add_key, drop_key, All-put, All-del,
}
use agent_arena.Prelude.Json.{Json, Items, Fields, bool, str, arr, end, item, get_field}
use agent_arena.Prelude.Result.{Result, ok, ◌>>=◌, Result-cases}
use agent_arena.Prelude.Sort.{All}
use agent_arena.Dispatch.{
  ToolSchema, Tool, ToolDispatcher, register_tool, unregister_tool, items_given, all_given,
  validate_parameters, success, execute_tool, get_tool_schema,
}

-- The same names in the same order in both dictionaries, and each schema under its own name.
pub record IsSynced {F : Type 0} (d : ToolDispatcher F) : Type 0 where
  pub same_names : keys d.tools ≡ keys d.schemas
  pub named : All (λ (e : String × ToolSchema F). e.1.name ≡ e.0) d.schemas

pub data Registration (F : Type 0) : Type 0 where
  registers : String → Tool F → String → Fields F → Fields F → Registration F
  unregisters : String → Registration F

none_of_absent : {A : Type 0} (o : Option A) → is_some o ≡ false → o ≡ none
none_of_absent none h = refl
none_of_absent (some a) h = absurd (cc h)

module _ {F : Type 0} where
  pub change : ToolDispatcher F → Registration F → Result (ToolDispatcher F)
  change d (registers name function description parameters returns) =
      ok (register_tool name function description parameters returns d)
  change d (unregisters name) = unregister_tool name d

  unfoldable pub changes : List (Registration F) → ToolDispatcher F → Result (ToolDispatcher F)
  unfolding change
  changes [] d = ok d
  changes (r ∷ rs) d = change d r >>= changes rs

  register-IsSynced :
      (name : String) (function : Tool F) (description : String) (parameters returns : Fields F)
      (d : ToolDispatcher F)
      → IsSynced d
      → IsSynced (register_tool name function description parameters returns d)
  unfolding register_tool
  register-IsSynced name function description parameters returns d v = record {
    same_names =
        keys-put d.tools name function
        ∙ ap (λ (ks : List String). add_key ks name) v.same_names
        ∙ sym (keys-put d.schemas name _);
    named = All-put _ d.schemas name _ refl v.named;
  }

  has-IsSynced :
      (name : String) (d : ToolDispatcher F) → IsSynced d → has d.tools name ≡ has d.schemas name
  has-IsSynced name d v =
      has-keys d.tools name
      ∙ ap (λ (ks : List String). contains ks name) v.same_names
      ∙ sym (has-keys d.schemas name)

  -- what `unregister_tool` leaves of a dispatcher in good order
  abbrev pub without : String → ToolDispatcher F → ToolDispatcher F
  without name d =
      if has d.tools name
      then record { tools = del d.tools name; schemas = del d.schemas name }
      else d

  unregister_ok :
      (name : String) (d : ToolDispatcher F)
      → IsSynced d
      → unregister_tool name d ≡ ok (without name d)
  unfolding unregister_tool
  unregister_ok name d v = ground (arith, has-IsSynced name d v)

  without-IsSynced : (name : String) (d : ToolDispatcher F) → IsSynced d → IsSynced (without name d)
  without-IsSynced name d v = elim (Bool-cases (has d.tools name)) [
    | inl there ↦ rw there (record {
      same_names =
          keys-del d.tools name
          ∙ ap (λ (ks : List String). drop_key ks name) v.same_names
          ∙ sym (keys-del d.schemas name);
      named = All-del _ d.schemas name v.named;
    })
    | inr absent ↦ rw absent v
  ]

  -- The dispatchers that a sequence of calls reaches without an exception, in good order.
  abbrev pub Reaches : List (Registration F) → ToolDispatcher F → Type 0
  Reaches rs d = (d' : ToolDispatcher F) × (changes rs d ≡ ok d') × IsSynced d'

  -- From a dispatcher whose tools and schemas go together on, registering and unregistering in any
  -- order and with any names never raises and keeps them together: the same names in the same
  -- order, and each schema under its own name.
  pub changes-IsSynced :
      (rs : List (Registration F)) (d : ToolDispatcher F) → IsSynced d → Reaches rs d
  unfolding changes
  changes-IsSynced [] d v = (d, refl, v)
  changes-IsSynced (registers name function description parameters returns ∷ rs) d v =
      changes-IsSynced rs _ (register-IsSynced name function description parameters returns d v)
  changes-IsSynced (unregisters name ∷ rs) d v =
      let (d', e, v') = changes-IsSynced rs (without name d) (without-IsSynced name d v) in
      (
        d',
        ap (λ (r : Result (ToolDispatcher F)). r >>= changes rs) (unregister_ok name d v) ∙ e,
        v',
      )

  removed :
      (name : String) (function : Tool F) (schema : ToolSchema F) (d : ToolDispatcher F)
      → get d.tools name ≡ none
      → get d.schemas name ≡ none
      → ok (
          without name
            (record { tools = put d.tools name function; schemas = put d.schemas name schema }))
        ≡ ok d
  removed name function schema d p q =
      simp
        (
          get-put d.tools name name function,
          beq_self name,
          del-put d.tools name function p,
          del-put d.schemas name schema q,
        )
        refl

  -- In a dispatcher whose tools and schemas go together, registering a tool under a new name and
  -- unregistering it gives the dispatcher back as it was.
  pub unregister_tool-register_tool :
      (name : String) (function : Tool F) (description : String) (parameters returns : Fields F)
      (d : ToolDispatcher F)
      → IsSynced d
      → get_tool_schema d name ≡ none
      → unregister_tool name (register_tool name function description parameters returns d) ≡ ok d
  unfolding register_tool get_tool_schema
  unregister_tool-register_tool name function description parameters returns d v new =
      let absent : get d.tools name ≡ none =
        none_of_absent (get d.tools name)
          (has-IsSynced name d v ∙ ap (λ (o : Option (ToolSchema F)). is_some o) new) in
      unregister_ok name _ (register-IsSynced name function description parameters returns d v)
      ∙ removed name function _ d absent new

  abbrev pub text_items : List String → Items F
  text_items [] = end
  text_items (k ∷ ks) = item (str k) (text_items ks)

  items_given-text :
      (parameters : Fields F) (ks : List String)
      → (items_given parameters (text_items ks) ≡ ok true)
        ↔ ((k : String) → Memᴰ k ks → is_some (get_field parameters k) ≡ true)
  unfolding items_given
  items_given-text parameters [] = (λ h k m. elim m [ ], λ h. refl)
  items_given-text parameters (k ∷ ks) = elim (Bool-cases (is_some (get_field parameters k))) [
    | inl there ↦
        let (f, g) = items_given-text parameters ks in
        rw there (
          λ h j m. elim m [ Memᴰ.head e ↦ rw e there | Memᴰ.tail n ↦ f h j n ],
          λ h. g (λ j n. h j (Memᴰ.tail n)),
        )
    | inr absent ↦ rw absent (λ h. absurd (cc h), λ h. absurd (cc (absent, h k (Memᴰ.head refl))))
  ]

  -- For a schema that requires a list of names, the parameters are valid exactly if each of these names
  -- is among them.
  pub validate_parameters-text :
      (d : ToolDispatcher F) (name : String) (parameters : Fields F) (schema : ToolSchema F)
      (ks : List String)
      → get d.schemas name ≡ some schema
      → get_field schema.parameters "required" ≡ some (arr (text_items ks))
      → (validate_parameters d name parameters ≡ ok true)
        ↔ ((k : String) → Memᴰ k ks → is_some (get_field parameters k) ≡ true)
  unfolding validate_parameters all_given
  validate_parameters-text d name parameters schema ks found required =
      simp (found, required) (items_given-text parameters ks)

  -- what a call of `execute_tool` that reports success did
  abbrev pub Ran : ToolDispatcher F → String → Fields F → Fields F → Type 0
  Ran d name parameters reply =
      (tool : Tool F) × (result : Json F) × (get d.tools name ≡ some tool)
      × (validate_parameters d name parameters ≡ ok true)
      × (tool parameters ≡ ok result)
      × (reply ≡ success result)

  -- `execute_tool` returns a reply in every case. It reports success exactly if the tool is registered,
  -- the parameters are valid and the tool returns, and then it reports the tool's result.
  pub execute_tool-Ran :
      (d : ToolDispatcher F) (name : String) (parameters : Fields F)
      → (get_field (execute_tool d name parameters) "success" ≡ some (bool true))
        ↔ Ran d name parameters (execute_tool d name parameters)
  unfolding execute_tool get_field
  execute_tool-Ran d name parameters = (
    λ h. elim (Option-cases (get d.tools name)) [
      | inl absent ↦ absurd (cc (simp absent at h))
      | inr (tool, found) ↦ elim (Result-cases (validate_parameters d name parameters)) [
        | inr (e, raised) ↦ absurd (cc (simp (found, raised) at h))
        | inl (true, valid) ↦ elim (Result-cases (tool parameters)) [
          | inr (e, raised) ↦ absurd (cc (simp (found, valid, raised) at h))
          | inl (result, ran) ↦ (tool, result, found, valid, ran, simp (found, valid, ran) refl)
        ]
        | inl (false, invalid) ↦ absurd (cc (simp (found, invalid) at h))
      ]
    ],
    λ (tool, result, found, valid, ran, reply). ap (λ (r : Fields F). get_field r "success") reply,
  )
