-- ===== src/Planning/Files.antt =====
-- The file names of planned tasks: `IsSharedRootBuildFile` and `isBlacklistedPlannedFile` of
-- pkg/services/task_dependencies.go, with what they use of Go's `path/filepath` on Unix.
use mathlib.Core.List.{reverse}
use noctifab.Prelude.{Bool, false, not, ◌&&◌, ◌||◌, List, [], ◌∷◌, ◌==◌, if◌then◌else◌, any}
use noctifab.Prelude.Text.{
  Text, codes, text_eq, is_empty, to_lower, has_prefix, contains, trim_space, elem,
}
use noctifab.Story.Ids.{base_name}
use noctifab.Guards.Breaker.{split_path, clean_path, join_path}

unfoldable pub non_empty : List Text → List Text
non_empty [] = []
non_empty (e ∷ es) = let rest = non_empty es in if is_empty e then rest else e ∷ rest

abbrev clean_joined : List Text → Text
clean_joined [] = []
clean_joined (e ∷ es) = clean_path (join_path (e ∷ es))

-- `filepath.Join`.
unfoldable pub path_join : List Text → Text
unfolding non_empty join_path clean_path
path_join elements = clean_joined (non_empty elements)

unfoldable pub is_abs : Text → Bool
unfolding has_prefix
is_abs path = has_prefix path (codes "/")

-- A reversed path from its last slash on.
unfoldable from_slash : Text → Text
from_slash [] = []
from_slash (c ∷ s) = if c == b'/' then c ∷ s else from_slash s

-- `filepath.Dir`.
unfoldable pub dir_name : Text → Text
unfolding from_slash clean_path
dir_name path = clean_path (reverse (from_slash (reverse path)))

-- The extension in a reversed path; `ext` has what was passed.
unfoldable ext_from : Text → Text → Text
ext_from ext [] = []
ext_from ext (c ∷ s) = if c == b'/' then [] else if c == b'.' then c ∷ ext else ext_from (c ∷ ext) s

-- `filepath.Ext`.
unfoldable pub ext_name : Text → Text
unfolding ext_from
ext_name path = ext_from [] (reverse path)

abbrev shared_root_build_files : List Text
shared_root_build_files =
    codes "makefile"
    ∷ codes "gnumakefile"
    ∷ codes "cmakelists.txt"
    ∷ codes "pyproject.toml"
    ∷ codes "setup.py"
    ∷ codes "setup.cfg"
    ∷ codes "package.json"
    ∷ codes "package-lock.json"
    ∷ codes "yarn.lock"
    ∷ codes "pnpm-lock.yaml"
    ∷ codes "cargo.toml"
    ∷ codes "cargo.lock"
    ∷ codes "go.mod"
    ∷ codes "go.sum"
    ∷ codes "pom.xml"
    ∷ codes "build.gradle"
    ∷ codes "build.gradle.kts"
    ∷ []

unfoldable pub is_shared_root_build_file : Text → Bool
unfolding contains trim_space clean_path dir_name base_name text_eq elem
is_shared_root_build_file path =
    let clean = to_lower (clean_path (trim_space path)) in
    let dir = dir_name clean in
    if contains clean (codes "/") || contains clean (codes "\\")
    then (if not (text_eq dir (codes ".")) && not (is_empty dir)
        then false
        else elem (base_name clean) shared_root_build_files)
    else elem clean shared_root_build_files

abbrev blacklisted_parts : List Text
blacklisted_parts =
    codes ".git"
    ∷ codes ".noctifab"
    ∷ codes "node_modules"
    ∷ codes "__pycache__"
    ∷ codes ".venv"
    ∷ codes "target"
    ∷ codes "vendor"
    ∷ []

abbrev blacklisted_extensions : List Text
blacklisted_extensions =
    codes ".o" ∷ codes ".a" ∷ codes ".so" ∷ codes ".dylib" ∷ codes ".exe" ∷ codes ".pyc" ∷ []

unfoldable pub is_blacklisted_planned_file : Text → Bool
unfolding clean_path split_path elem any ext_name
is_blacklisted_planned_file path =
    let clean = to_lower (clean_path path) in
    any (λ p. elem p blacklisted_parts) (split_path [] clean)
    || elem (ext_name clean) blacklisted_extensions
