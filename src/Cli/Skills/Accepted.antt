-- ===== src/Cli/Skills/Accepted.antt =====
-- What the parser of `orcats skills` accepts.
use orca_ts.Cli.Args.{skills, SkillsArgs, CliError, CliArgs}
use orca_ts.Cli.Skills.Spelling.{IsProper, IsValue}
use orca_ts.Cli.Skills.{
  unexpected, bad_option, separator, yes_flag, global_flag, all_flag, no_skills_scan, list_flag,
  version_flag, agent_option, help_flag, skill_option, skills_of, command_word, takes_value,
  classify_skills, put_once, skills_result, SkillsArgument, skills_step, is_value,
  parse_skills_args, skills_scan, finish_skills, SkillsScan, skills_proceed, put_value,
  SkillsOption,
}
use orca_ts.Base.{
  ok_injective, if◌then◌else◌, arith, sym, Bool, false, refl, ap, subst, not, >>=-eq-ok, ◌&&◌,
  is_none, if_elim, ◌∷◌, ◌≡◌, ◌>>=◌, List, Text, Option, Result, none, some, [], true, ok, err,
}

abbrev HasValues : SkillsScan → Type 0
HasValues s = IsValue s.skill × IsValue s.agent

-- The values of what a parser gives, where it gives something.
abbrev IsKept : Result SkillsScan CliError → Type 0
IsKept (ok s) = HasValues s
IsKept (err e) = Unit

>>=-IsKept :
    (r : Result SkillsScan CliError) (k : SkillsScan → Result SkillsScan CliError)
    → IsKept r
    → ((s : SkillsScan) → HasValues s → IsKept (k s))
    → IsKept (r >>= k)
>>=-IsKept (ok s) k h f = f s h
>>=-IsKept (err e) k h f = tt

put_once-IsKept :
    (option : SkillsOption) (value : Text) (s : SkillsScan)
    → is_value value ≡ true
    → HasValues s
    → IsKept (put_once option value s)
put_once-IsKept skill_option value s v (h, k) =
    if_elim IsKept (is_none s.skill) (λ _. (v, k)) (λ _. tt)
put_once-IsKept agent_option value s v (h, k) =
    if_elim IsKept (is_none s.agent) (λ _. (h, v)) (λ _. tt)

put_value-IsKept :
    (option : SkillsOption) (value : Option Text) (s : SkillsScan)
    → HasValues s
    → IsKept (put_value option value s)
unfolding put_value
put_value-IsKept option none s h = tt
put_value-IsKept option (some value) s h =
    if_elim IsKept (is_value value) (λ v. put_once-IsKept option value s v h) (λ _. tt)

skills_proceed-IsKept :
    (c : SkillsArgument) (arg : Text) (s : SkillsScan)
    (more : Option SkillsOption → SkillsScan → Result SkillsScan CliError)
    → HasValues s
    → ((w : Option SkillsOption) (t : SkillsScan) → HasValues t → IsKept (more w t))
    → IsKept (skills_proceed more (skills_step c arg s))
unfolding skills_proceed skills_step
skills_proceed-IsKept command_word arg s more h f = f none _ h
skills_proceed-IsKept help_flag arg s more h f = f none _ h
skills_proceed-IsKept version_flag arg s more h f = f none _ h
skills_proceed-IsKept list_flag arg s more h f = f none _ h
skills_proceed-IsKept all_flag arg s more h f = f none _ h
skills_proceed-IsKept global_flag arg s more h f = f none _ h
skills_proceed-IsKept yes_flag arg s more h f = f none _ h
skills_proceed-IsKept (takes_value option) arg s more h f = f (some option) _ h
skills_proceed-IsKept separator arg s more h f = tt
skills_proceed-IsKept bad_option arg s more h f = tt
skills_proceed-IsKept unexpected arg s more h f = tt

skills_scan-IsKept :
    (argv : List Text) (w : Option SkillsOption) (s : SkillsScan)
    → HasValues s
    → IsKept (skills_scan argv w s)
unfolding skills_scan
skills_scan-IsKept [] none s h = h
skills_scan-IsKept [] (some option) s h = put_value-IsKept option none s h
skills_scan-IsKept (arg ∷ argv) (some option) s h =
    >>=-IsKept (put_value option (some arg) s) (skills_scan argv none)
      (put_value-IsKept option (some arg) s h) (λ t k. skills_scan-IsKept argv none t k)
skills_scan-IsKept (arg ∷ argv) none s h =
    skills_proceed-IsKept (classify_skills arg s.saw_command) arg s (skills_scan argv) h
      (λ w t k. skills_scan-IsKept argv w t k)

-- A refusal under a test, where the code went on.
if-eq-ok :
    {A E : Type 0} (b : Bool) (e : E) {x y : A}
    → (if b then err e else ok x) ≡ ok y
    → (b ≡ false) × (x ≡ y)
if-eq-ok true e h = absurd (cc)
if-eq-ok false e h = (refl, ok_injective _ _ h)

exclusive_of :
    {all : Bool} (o : Option Text) → all && not (is_none o) ≡ false → all ≡ true → o ≡ none
exclusive_of none fine asked = refl
exclusive_of (some skill) fine asked = absurd (ground arith)

finish_skills-IsProper :
    (s : SkillsScan) (c : CliArgs)
    → HasValues s
    → finish_skills s ≡ ok c
    → (c ≡ skills_result s.help s.version (skills_of s)) × IsProper (skills_of s)
unfolding finish_skills
finish_skills-IsProper s c (h, k) e =
    let (fine, is_result) = if-eq-ok (s.all && not (is_none s.skill)) _ e in
    (
      sym is_result,
      record { skill_value = h; agent_value = k; exclusive = exclusive_of s.skill fine },
    )

-- Whatever line of `orcats skills` is accepted, its values are not empty and start with no dash, it does
-- not ask for all skills and for one, and it carries no arguments for a task.
pub parse_skills_args-IsProper :
    (argv : List Text) (c : CliArgs)
    → parse_skills_args argv ≡ ok c
    → (a : SkillsArgs) × (c.skills_args ≡ some a)
      × IsProper a
      × (c.command ≡ some skills)
      × (c.flow_args ≡ [])
unfolding parse_skills_args
parse_skills_args-IsProper argv c e =
    let (s, scanned, finished) = >>=-eq-ok (skills_scan argv none no_skills_scan) finish_skills e in
    let kept = subst IsKept scanned (skills_scan-IsKept argv none no_skills_scan (tt, tt)) in
    let (is_result, proper) = finish_skills-IsProper s c kept finished in
    (
      skills_of s,
      ap (λ c. c.skills_args) is_result,
      proper,
      ap (λ c. c.command) is_result,
      ap (λ c. c.flow_args) is_result,
    )
