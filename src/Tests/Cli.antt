-- ===== src/Tests/Cli.antt =====
-- Runs of the parsers of src/cli/args.ts.
use orca_ts.Cli.Skills.Accepted.{parse_skills_args-IsProper}
use orca_ts.Cli.Skills.Spelling.{parse_cli_args-spell_skills, IsProper, spell_skills}
use orca_ts.Cli.Args.Separator.{parse_plain_args-separator, waits}
use orca_ts.Cli.Skills.{
  finish_skills, skills_proceed, skills_step, put_value, classify_skills, skills_scan,
  skills_result, is_value, parse_cli_args, parse_skills_args,
}
use orca_ts.Cli.Args.{parse_plain_args, skills, classify, SkillsArgs}
use orca_ts.Base.{
  ◌>>=◌, ◌++◌, ◌∷◌, ◌≡◌, text, starts_with, Text, same, List, none, some, [], true, false, refl, ok,
}

abbrev line : List Text
line = text "run" ∷ text "fix.ts" ∷ text "--backend=codex" ∷ []

abbrev task : List Text
task = text "do" ∷ text "--help" ∷ []

parse_plain_args-separator_example :
    parse_plain_args (line ++ text "--" ∷ task)
    ≡ (parse_plain_args line >>= λ a. ok (record a { flow_args = task }))
unfolding same waits classify
parse_plain_args-separator_example =
    parse_plain_args-separator line task (refl, (refl, (refl, tt))) refl

abbrev wanted : SkillsArgs
wanted = record {
  list = false;
  all = false;
  skill = some (text "review");
  agent = some (text "codex");
  global = true;
  yes = true;
}

wanted-IsProper : IsProper wanted
unfolding is_value starts_with
wanted-IsProper = record { skill_value = refl; agent_value = refl; exclusive = λ h. absurd (cc) }

parse_cli_args-spell_skills_example :
    parse_cli_args (spell_skills false true wanted) ≡ ok (skills_result false true wanted)
parse_cli_args-spell_skills_example = parse_cli_args-spell_skills false true wanted wanted-IsProper

abbrev asked : List Text
asked = text "skills" ∷ text "--skill" ∷ text "review" ∷ text "--yes" ∷ []

abbrev chosen : SkillsArgs
chosen = record {
  list = false;
  all = false;
  skill = some (text "review");
  agent = none;
  global = false;
  yes = true;
}

asked_lem : parse_skills_args asked ≡ ok (skills_result false false chosen)
unfolding parse_skills_args skills_scan classify_skills put_value is_value skills_step
    skills_proceed finish_skills same starts_with
asked_lem = refl

parse_skills_args-IsProper_example :
    (a : SkillsArgs) × (skills_result false false chosen).skills_args ≡ some a
    × IsProper a
    × ((skills_result false false chosen).command ≡ some skills)
    × ((skills_result false false chosen).flow_args ≡ [])
parse_skills_args-IsProper_example =
    parse_skills_args-IsProper asked (skills_result false false chosen) asked_lem
