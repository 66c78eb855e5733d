-- ===== src/Prelude/FilePath.antt =====
-- Paths as texts, and what the code calls of `std::path::Path` on a Unix system.
pub mod Extension
use Prim.Native.Nat.{ℕ}
use mathlib.Core.Path.{◌≡◌, refl, sym, ap, ◌∙◌, subst}
use mathlib.Core.Logic.{◌≢◌, inl, inr}
use native.Mathlib.Omega.{arith}
use mathlib.Core.Bool.{Bool, true, false, not, ◌&&◌, ◌||◌}
use mathlib.Core.List.{
  List, [], ◌∷◌, ◌++◌, reverse, reverse-cons, reverse-append, reverse-reverse, append_assoc,
  append-nil,
}
use mathlib.Core.Option.{Option, none, some}
use btwattch2_rs.Prelude.Tests.{◌==◌, if◌then◌else◌, Bool-cases}
use btwattch2_rs.Prelude.Lists.{All, All-append}
use btwattch2_rs.Prelude.Text.{Text, codes, eq_text, is_empty_text, starts_with}

-- `join`: an absolute path stands for itself.
unfoldable pub join : Text → Text → Text
join base path =
    if starts_with b'/' path
    then path
    else if is_empty_text base || starts_with b'/' (reverse base)
    then base ++ path
    else base ++ (b'/' ∷ path)

-- Of a path from its end: without what does not count behind its last component.
without_trailing : Text → Text
without_trailing [] = []
without_trailing (c ∷ []) = if c == b'/' then [] else c ∷ []
without_trailing (c ∷ d ∷ s) =
    let rest = without_trailing (d ∷ s) in
    if c == b'/' || (c == b'.' && d == b'/') then rest else c ∷ d ∷ s

-- The text up to a character, and the rest with it.
split_at : ℕ → Text → Text × Text
split_at c [] = ([], [])
split_at c (d ∷ s) = let rest = split_at c s in if d == c then ([], d ∷ s) else (d ∷ rest.0, rest.1)

-- `file_stem`, from the end of the name: what is behind the last dot is left out, unless nothing
-- stands before it.
stem : Text → Text × Text → Text
stem name (extension, []) = name
stem name (extension, dot ∷ []) = name
stem name (extension, dot ∷ c ∷ before) = c ∷ before

is_name : Text → Bool
is_name name = not (is_empty_text name || eq_text name (codes ".") || eq_text name (codes ".."))

with_stem : Text → Text → Text × Text → Text
unfolding stem split_at is_name
with_stem path extension (name, dir) =
    if is_name name
    then reverse (stem name (split_at b'.' name) ++ dir) ++ (b'.' ∷ extension)
    else path

-- `with_extension`, for an extension that is not empty. A path without a file name stays as it is.
unfoldable pub with_extension : Text → Text → Text
unfolding without_trailing with_stem
with_extension path extension =
    with_stem path extension (split_at b'/' (without_trailing (reverse path)))

test_with_extension :
    with_extension (codes "/run/a.b/x.y.sock/") (codes "pid") ≡ codes "/run/a.b/x.y.pid"
unfolding with_extension
test_with_extension = refl

test_hidden : with_extension (codes "a/.sock") (codes "pid") ≡ codes "a/.sock.pid"
unfolding with_extension
test_hidden = refl

test_no_name : with_extension (codes "a/..") (codes "pid") ≡ codes "a/.."
unfolding with_extension
test_no_name = refl
