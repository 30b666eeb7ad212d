-- ===== src/Backends/Codex/Arguments.antt =====
-- src/backends/codex-jsonl.ts, `codexExecJsonlArgs`; `JSON.stringify` of a string is an argument.
use orca_ts.Base.{
  arith, ◌∙◌, ap, true, sym, if_elim, ltb, some_injective, ◌++◌, length, false, subst, ◌<◌,
  All-append, if◌then◌else◌, ◌∷◌, All, List, ◌≡◌, text, or_else, Bool, same, Text, Option, none,
  some, [], refl,
}

pub record CodexExecArgs : Type 0 where
  pub model : Option Text
  pub reasoning_effort : Option Text
  pub approval_policy : Option Text
  pub sandbox : Option Text
  pub read_only : Bool
  pub ignore_user_config : Bool
  pub output_schema_path : Option Text
  pub resume_session_id : Option Text
  pub mcp_server_url : Option Text
  pub prompt : Option Text

-- `value ? use(value) : []`.
abbrev pub where_truthy : Option Text → (Text → List Text) → List Text
where_truthy none f = []
where_truthy (some []) f = []
where_truthy (some (u ∷ us)) f = f (u ∷ us)

abbrev pub config : Text → Text → List Text
config key value = text "-c" ∷ (key ++ text "=\"" ++ value ++ text "\"") ∷ []

abbrev pub flagged : Text → Text → List Text
flagged flag value = flag ∷ value ∷ []

abbrev pub bridge : (Text → Text) → Text → List Text
bridge stringify url = text "-c" ∷ (text "mcp_servers.orcats.url=" ++ stringify url) ∷ []

abbrev pub user_config : Bool → List Text
user_config ignored = if ignored then text "--ignore-user-config" ∷ [] else []

abbrev pub sandbox_of : CodexExecArgs → Option Text
sandbox_of args = or_else args.sandbox (if args.read_only then some (text "read-only") else none)

abbrev pub prompt_args : Option Text → List Text
prompt_args none = []
prompt_args (some prompt) = prompt ∷ []

unfoldable pub common_args : (Text → Text) → CodexExecArgs → List Text
common_args stringify args =
    text "--json" ∷ user_config args.ignore_user_config
    ++ where_truthy args.model (flagged (text "--model"))
    ++ where_truthy args.reasoning_effort (config (text "model_reasoning_effort"))
    ++ where_truthy args.approval_policy (config (text "approval_policy"))
    ++ where_truthy args.mcp_server_url (bridge stringify)
    ++ where_truthy args.output_schema_path (flagged (text "--output-schema"))

abbrev pub resume_args : (Text → Text) → CodexExecArgs → Text → List Text
resume_args stringify args session =
    text "exec" ∷ text "resume" ∷ common_args stringify args
    ++ where_truthy (sandbox_of args) (config (text "sandbox_mode"))
    ++ session ∷ prompt_args args.prompt

abbrev pub start_args : (Text → Text) → CodexExecArgs → List Text
start_args stringify args =
    text "exec" ∷ common_args stringify args
    ++ where_truthy (sandbox_of args) (flagged (text "--sandbox"))
    ++ prompt_args args.prompt

unfoldable pub codex_exec_jsonl_args : (Text → Text) → CodexExecArgs → List Text
unfolding common_args
codex_exec_jsonl_args stringify args = elim args.resume_session_id [
  | none ↦ start_args stringify args
  | some session ↦
      if ltb 0 (length session)
      then resume_args stringify args session
      else start_args stringify args
]

-- Not the flag that `codex exec resume` rejects.
abbrev pub IsOther : Text → Type 0
IsOther a = same a (text "--sandbox") ≡ false

abbrev pub IsOtherIn : Option Text → Type 0
IsOtherIn none = Unit
IsOtherIn (some a) = IsOther a

where_truthy-IsOther :
    (o : Option Text) (f : Text → List Text)
    → ((a : Text) → o ≡ some a → All IsOther (f a))
    → All IsOther (where_truthy o f)
where_truthy-IsOther none f h = tt
where_truthy-IsOther (some []) f h = tt
where_truthy-IsOther (some (u ∷ us)) f h = h (u ∷ us) refl

IsOther-IsOtherIn : (o : Option Text) (a : Text) → IsOtherIn o → o ≡ some a → IsOther a
IsOther-IsOtherIn none a h e = absurd (cc)
IsOther-IsOtherIn (some b) a h e = subst IsOther (some_injective b a e) h

user_config-IsOther : (ignored : Bool) → All IsOther (user_config ignored)
unfolding same
user_config-IsOther true = (refl, tt)
user_config-IsOther false = tt

common_args-IsOther :
    (stringify : Text → Text) (args : CodexExecArgs)
    → IsOtherIn args.model
    → IsOtherIn args.output_schema_path
    → All IsOther (common_args stringify args)
unfolding common_args same
common_args-IsOther stringify args m p =
    let fine = All-append IsOther in
    let model = where_truthy args.model (flagged (text "--model")) in
    let effort = where_truthy args.reasoning_effort (config (text "model_reasoning_effort")) in
    let policy = where_truthy args.approval_policy (config (text "approval_policy")) in
    let url = where_truthy args.mcp_server_url (bridge stringify) in
    let path = where_truthy args.output_schema_path (flagged (text "--output-schema")) in
    (
      refl,
      fine _ path
          (fine _ url
            (fine _ policy
              (fine _ effort
                (fine (user_config args.ignore_user_config) model
                  (user_config-IsOther args.ignore_user_config)
                  (where_truthy-IsOther args.model (flagged (text "--model"))
                    (λ a e. (refl, (IsOther-IsOtherIn args.model a m e, tt)))))
                (where_truthy-IsOther args.reasoning_effort (config (text "model_reasoning_effort"))
                  (λ a e. (refl, (refl, tt)))))
              (where_truthy-IsOther args.approval_policy (config (text "approval_policy"))
                (λ a e. (refl, (refl, tt)))))
            (where_truthy-IsOther args.mcp_server_url (bridge stringify)
              (λ a e. (refl, (refl, tt)))))
          (where_truthy-IsOther args.output_schema_path (flagged (text "--output-schema"))
            (λ a e. (refl, (IsOther-IsOtherIn args.output_schema_path a p e, tt)))),
    )

prompt_args-IsOther : (o : Option Text) → IsOtherIn o → All IsOther (prompt_args o)
prompt_args-IsOther none h = tt
prompt_args-IsOther (some a) h = (h, tt)

-- A resumed session never gets the flag `--sandbox`, which `codex exec resume` rejects, unless a value
-- that the caller gave is that very text.
pub codex_exec_jsonl_args-IsOther :
    (stringify : Text → Text) (args : CodexExecArgs) (session : Text)
    → args.resume_session_id ≡ some session
    → 0 < length session
    → IsOther session
    → IsOtherIn args.model
    → IsOtherIn args.output_schema_path
    → IsOtherIn args.prompt
    → All IsOther (codex_exec_jsonl_args stringify args)
unfolding codex_exec_jsonl_args same
codex_exec_jsonl_args-IsOther stringify args session e n s m p q =
    subst (All IsOther) (sym resumes) (
      refl,
      (
        refl,
        All-append IsOther
            (common_args stringify args
              ++ where_truthy (sandbox_of args) (config (text "sandbox_mode")))
            (session ∷ prompt_args args.prompt)
            (All-append IsOther (common_args stringify args)
              (where_truthy (sandbox_of args) (config (text "sandbox_mode")))
              (common_args-IsOther stringify args m p)
              (where_truthy-IsOther (sandbox_of args) (config (text "sandbox_mode"))
                (λ a e. (refl, (refl, tt)))))
            (s, prompt_args-IsOther args.prompt q),
      ),
    )
  where
    by_session : Option Text → List Text
    by_session o = elim o [
      | none ↦ start_args stringify args
      | some session ↦
          if ltb 0 (length session)
          then resume_args stringify args session
          else start_args stringify args
    ]

    resumes : codex_exec_jsonl_args stringify args ≡ resume_args stringify args session
    resumes =
        ap by_session e
        ∙ if_elim (λ l. l ≡ resume_args stringify args session) (ltb 0 (length session)) (λ _. refl)
            (λ empty. absurd (ground arith))
