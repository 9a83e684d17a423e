-- ===== src/Cmd/Scaffold.antt =====
-- cmd/hwhkit/init.go. The file system is a record of functions on its state `S`; the embedded
-- templates are what fs.WalkDir visits of them, the root first.
use mathlib.Core.Option.{none-ne-some}
use hwhkit_go.Prelude.{
  ℕ, ◌+◌, String, ◌≡◌, sym, inl, inr, Bool, false, Option, none, some, List, [], ◌∷◌, arith, ◌==◌,
  nat_eq, string_eq, if◌then◌else◌, Option-cases, length,
}
use hwhkit_go.Prelude.Text.{Bytes, append, concat}
use hwhkit_go.Core.CoreError.{Error, plain, Result, ok, err}

pub record TemplateVars : Type 0 where
  pub module_name : String
  pub project_name : String
  pub go_version : String

-- A call of the function that is passed to WalkDir: with an error, which for a root that is not
-- there is the only call, or with a directory or a file. `rel` is the path below the root, "." for
-- the root itself, of which only the directory is made.
pub data Visit : Type 0 where
  failed_visit : Error → Visit
  directory : String → Visit
  template_file : String → Result Bytes → Visit

-- `render` parses and executes a template into a created file.
pub record Library (S : Type 0) : Type 0 where
  pub exists : String → S → Bool
  pub mkdir_all : String → S → S × Option Error
  pub write_file : String → Bytes → S → S × Option Error
  pub render : String → Bytes → TemplateVars → S → S × Option Error
  pub join_path : String → String → String
  pub strip_tmpl : String → Bool × String
  pub go_mod_tidy : String → S → S
  pub go_found : Bool
  pub quote : String → String

module _ {S : Type 0} (lib : Library S) where
  -- strings.TrimSuffix(rel, ".tmpl"), where `strip_tmpl` says whether it is there.
  unfoldable pub trim_tmpl : String → String
  trim_tmpl rel = if (lib.strip_tmpl rel).0 then (lib.strip_tmpl rel).1 else rel

  unfoldable pub visit : String → TemplateVars → Visit → S → S × Option Error
  unfolding trim_tmpl
  visit dst vars (failed_visit e) s = (s, some e)
  visit dst vars (directory rel) s =
      if rel == "."
      then lib.mkdir_all dst s
      else lib.mkdir_all (lib.join_path dst (trim_tmpl rel)) s
  visit dst vars (template_file rel content) s =
      let out = lib.join_path dst (trim_tmpl rel) in
      let written : S × Option Error = elim content [
        | err e ↦ (s, some e)
        | ok b ↦ if (lib.strip_tmpl rel).0 then lib.render out b vars s else lib.write_file out b s
      ] in
      if rel == "." then lib.mkdir_all dst s else written

  -- The walk: it ends at the first error. The number counts the visits without an error of their own.
  unfoldable pub walk : String → TemplateVars → List Visit → ℕ → S → S × (ℕ × Option Error)
  unfolding visit
  walk dst vars [] walked s = (s, (walked, none))
  walk dst vars (v ∷ vs) walked s =
      let (s', failure) = visit dst vars v s in
      let walked' : ℕ = elim v [ failed_visit e ↦ walked | _ ↦ walked + 1 ] in
      let rest = walk dst vars vs walked' s' in
      elim failure [ some e ↦ (s', (walked', some e)) | none ↦ rest ]

  -- scaffoldFromEmbed, for the visits `root ∷ others` of the template.
  unfoldable pub scaffold_from_embed :
      String → String → TemplateVars → Visit → List Visit → S → S × Option Error
  unfolding walk
  scaffold_from_embed template_name dst vars root others s =
      if lib.exists dst s
      then (s, some (plain (concat ("destination " ∷ lib.quote dst ∷ " already exists" ∷ []))))
      else let (s', (walked, failure)) = walk dst vars (root ∷ others) 0 s in
        elim failure [
          | some e ↦ (s', some e)
          | none ↦
              if walked == 0
              then (
                s',
                some (plain (concat ("template " ∷ lib.quote template_name ∷ " not found" ∷ []))),
              )
              else (if lib.go_found then lib.go_mod_tidy dst s' else s', none)
        ]

  -- `hwhkit init`, with what it prints; an empty --module is made from the project's name.
  unfoldable pub init :
      String → String → String → Visit → List Visit → S → S × (List String × Option Error)
  unfolding scaffold_from_embed
  init template_name module_path project root others s =
      let vars : TemplateVars = record {
        module_name =
            if module_path == "" then append "github.com/yourorg/" project else module_path;
        project_name = project;
        go_version = "1.23";
      } in
      let (s', failure) = scaffold_from_embed template_name project vars root others s in
      elim failure [
        | some e ↦ (s', ([], some e))
        | none ↦ (
          s',
          (
            concat ("✓ project " ∷ lib.quote project ∷ " created at ./" ∷ project ∷ [])
                ∷ "  next steps:"
                ∷ concat ("    cd " ∷ project ∷ " && go mod tidy && go run ." ∷ [])
                ∷ [],
            none,
          ),
        )
      ]

  walk_counts :
      (dst : String) (vars : TemplateVars) (vs : List Visit) (n : ℕ) (s : S)
      → (walk dst vars vs n s).1.1 ≡ none
      → (walk dst vars vs n s).1.0 ≡ n + length vs
  unfolding walk
  walk_counts dst vars [] n s h = ground arith
  walk_counts dst vars (failed_visit e ∷ vs) n s h = absurd (none-ne-some e (sym h))
  walk_counts dst vars (directory rel ∷ vs) n s h =
      elim (Option-cases (visit dst vars (directory rel) s).1) [
        | inl fine ↦
            ground
              (arith, fine, h, walk_counts dst vars vs (n + 1) (visit dst vars (directory rel) s).0)
        | inr (e, bad) ↦ ground (arith, bad, h)
      ]
  walk_counts dst vars (template_file rel content ∷ vs) n s h =
      elim (Option-cases (visit dst vars (template_file rel content) s).1) [
        | inl fine ↦ ground (
          arith,
          fine,
          h,
          walk_counts dst vars vs (n + 1) (visit dst vars (template_file rel content) s).0,
        )
        | inr (e, bad) ↦ ground (arith, bad, h)
      ]

  -- Scaffolding into a place where nothing is ends with no error exactly if every visit of the walk
  -- does; the error "template not found" cannot come up.
  scaffold_lem :
      (template_name dst : String) (vars : TemplateVars) (root : Visit) (others : List Visit)
      (s : S)
      → lib.exists dst s ≡ false
      → (scaffold_from_embed template_name dst vars root others s).1
        ≡ (walk dst vars (root ∷ others) 0 s).1.1
  unfolding scaffold_from_embed
  scaffold_lem template_name dst vars root others s free =
      elim (Option-cases (walk dst vars (root ∷ others) 0 s).1.1) [
        | inl fine ↦ ground (arith, free, fine, walk_counts dst vars (root ∷ others) 0 s fine)
        | inr (e, bad) ↦ ground (arith, free, bad)
      ]
