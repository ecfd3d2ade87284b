-- ===== src/Nntp/Args.antt =====
-- The arguments of a command line: the loop that `serveClient` of src/nksrv/lib/nntp/server.go,
-- `cmdAuthInfo` and `cmdList` share.
pub mod Laws
use nksrv.Base.{ℕ, Bool, List, [], ◌∷◌, ◌++◌, Option, none, some, Bytes, leb, if◌then◌else◌, length}
use nksrv.Ascii.{is_ws}

-- All arguments, or as many as the command takes and the rest of the line, from the next one on.
pub data Parsed : Type 0 where
  all_args : List Bytes → Parsed
  extra_args : List Bytes → Bytes → Parsed

-- The loop over `x`, on what is left of the line behind a space. The mode is the bytes from `sx`
-- on, or none while spaces are skipped.
args_loop : ℕ → List Bytes → Option Bytes → Bytes → Parsed
args_loop maxargs args none [] = all_args args
args_loop maxargs args (some cur) [] = all_args (args ++ cur ∷ [])
args_loop maxargs args none (c ∷ s) =
    let skip = args_loop maxargs args none s in
    let word = args_loop maxargs args (some (c ∷ [])) s in
    if is_ws c then skip else if leb maxargs (length args) then extra_args args (c ∷ s) else word
args_loop maxargs args (some cur) (c ∷ s) =
    let skip = args_loop maxargs (args ++ cur ∷ []) none s in
    let word = args_loop maxargs args (some (cur ++ c ∷ [])) s in if is_ws c then skip else word

unfoldable pub parse_args : ℕ → Bytes → Parsed
unfolding args_loop
parse_args maxargs s = args_loop maxargs [] none s
