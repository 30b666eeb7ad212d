-- ===== src/Cli/Skills/Spelling.antt =====
-- The arguments of `orcats skills`, spelled and read back.
use orca_ts.Cli.Args.{classify, first_positional, SkillsArgs}
use orca_ts.Cli.Skills.{
  parse_skills_args, complain, put_once, skills_result, no_skills_scan, finish_skills,
  parse_cli_args, go_on, put_value, SkillsScan, agent_option, skills_proceed, skill_option,
  option_name, is_value, skills_step, classify_skills, skills_scan, SkillsOption,
}
use orca_ts.Base.{
  arith, is_none, ◌>>=◌, ◌++◌, not, ◌&&◌, if_elim, if◌then◌else◌, ◌∙◌, sym, refl, ok, ap, same, ◌∷◌,
  text, Text, ◌≡◌, List, Bool, Option, none, some, [], true, false,
}

abbrev pub flag : Bool → Text → List Text → List Text
flag true name rest = name ∷ rest
flag false name rest = rest

abbrev pub valued : SkillsOption → Option Text → List Text → List Text
valued option none rest = rest
valued option (some value) rest = option_name option ∷ value ∷ rest

-- A command line that says what the arguments hold.
unfoldable pub spell_skills : Bool → Bool → SkillsArgs → List Text
spell_skills help version a =
    text "skills"
    ∷ flag help (text "--help") (
        flag version (text "--version") (
          flag a.list (text "--list") (
            flag a.all (text "--all") (
              flag a.global (text "--global") (
                flag a.yes (text "--yes")
                  (valued skill_option a.skill (valued agent_option a.agent [])))))))

-- A value that an option may take.
abbrev pub IsValue : Option Text → Type 0
IsValue none = Unit
IsValue (some value) = is_value value ≡ true

-- What a command line can say.
pub record IsProper (a : SkillsArgs) : Type 0 where
  pub skill_value : IsValue a.skill
  pub agent_value : IsValue a.agent
  pub exclusive : a.all ≡ true → a.skill ≡ none

flag_lem :
    (name : Text) (set : Bool → SkillsScan → SkillsScan) (b : Bool) (rest : List Text)
    (s : SkillsScan)
    → skills_step (classify_skills name s.saw_command) name s ≡ go_on none (set true s)
    → set false s ≡ s
    → skills_scan (flag b name rest) none s ≡ skills_scan rest none (set b s)
unfolding skills_scan skills_proceed
flag_lem name set true rest s e f = ap (skills_proceed (skills_scan rest)) e
flag_lem name set false rest s e f = ap (skills_scan rest none) (sym f)

skill_lem :
    (v : Option Text) (rest : List Text) (s : SkillsScan)
    → IsValue v
    → s.skill ≡ none
    → skills_scan (valued skill_option v rest) none s
      ≡ skills_scan rest none (record s { skill = v })
unfolding skills_scan skills_step classify_skills skills_proceed put_value same
skill_lem none rest s h e = ap (λ o. skills_scan rest none (record s { skill = o })) e
skill_lem (some value) rest s h e =
    ap
      (λ b.
        (if b
          then put_once skill_option value s
          else complain (option_name skill_option ++ text " requires a value"))
        >>= skills_scan rest none)
      h
    ∙ ap
        (λ o.
          (if is_none o
            then ok (record s { skill = some value })
            else complain (text "--skill may be provided once"))
          >>= skills_scan rest none)
        e

agent_lem :
    (v : Option Text) (rest : List Text) (s : SkillsScan)
    → IsValue v
    → s.agent ≡ none
    → skills_scan (valued agent_option v rest) none s
      ≡ skills_scan rest none (record s { agent = v })
unfolding skills_scan skills_step classify_skills skills_proceed put_value same
agent_lem none rest s h e = ap (λ o. skills_scan rest none (record s { agent = o })) e
agent_lem (some value) rest s h e =
    ap
      (λ b.
        (if b
          then put_once agent_option value s
          else complain (option_name agent_option ++ text " requires a value"))
        >>= skills_scan rest none)
      h
    ∙ ap
        (λ o.
          (if is_none o
            then ok (record s { agent = some value })
            else complain (text "--agent may be provided once"))
          >>= skills_scan rest none)
        e

-- The variables of the loop at its end, for a command line that was spelled.
abbrev spelled : Bool → Bool → SkillsArgs → SkillsScan
spelled help version a = record {
  help = help;
  version = version;
  list = a.list;
  all = a.all;
  skill = a.skill;
  agent = a.agent;
  global = a.global;
  yes = a.yes;
  saw_command = true;
}

skills_scan-spell :
    (help version : Bool) (a : SkillsArgs)
    → IsProper a
    → skills_scan (spell_skills help version a) none no_skills_scan ≡ ok (spelled help version a)
unfolding spell_skills skills_scan skills_step classify_skills skills_proceed same
skills_scan-spell help version a h =
    flag_lem (text "--help") (λ b s. record s { help = b }) help _ _ refl refl
    ∙ flag_lem (text "--version") (λ b s. record s { version = b }) version _ _ refl refl
    ∙ flag_lem (text "--list") (λ b s. record s { list = b }) a.list _ _ refl refl
    ∙ flag_lem (text "--all") (λ b s. record s { all = b }) a.all _ _ refl refl
    ∙ flag_lem (text "--global") (λ b s. record s { global = b }) a.global _ _ refl refl
    ∙ flag_lem (text "--yes") (λ b s. record s { yes = b }) a.yes _ _ refl refl
    ∙ skill_lem a.skill _ _ h.skill_value refl
    ∙ agent_lem a.agent _ _ h.agent_value refl

finish_skills-spelled :
    (help version : Bool) (a : SkillsArgs)
    → IsProper a
    → finish_skills (spelled help version a) ≡ ok (skills_result help version a)
unfolding finish_skills
finish_skills-spelled help version a h =
    if_elim (λ r. r ≡ ok (skills_result help version a)) (a.all && not (is_none a.skill))
      (λ clash. absurd (ground (arith, h.exclusive))) (λ fine. refl)

-- A command line of `orcats skills` is read back as it was meant, if its values can be values and it
-- does not ask for all skills and for one.
pub parse_cli_args-spell_skills :
    (help version : Bool) (a : SkillsArgs)
    → IsProper a
    → parse_cli_args (spell_skills help version a) ≡ ok (skills_result help version a)
unfolding parse_cli_args first_positional classify same parse_skills_args spell_skills
parse_cli_args-spell_skills help version a h =
    ap (λ r. r >>= finish_skills) (skills_scan-spell help version a h)
    ∙ finish_skills-spelled help version a h
