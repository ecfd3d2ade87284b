-- ===== src/Puller/Response.antt =====
-- src/nksrv/lib/nntp/client_common.go: the responses that a client reads. The connection is the sequence of the
-- bytes and errors to come, and `upto` what `ReadUntil` takes of them.
use nksrv.Base.{
  ℕ, zero, suc, Bool, true, false, not, ◌&&◌, ◌||◌, List, [], ◌∷◌, Option, none, some, Bytes, ltb,
  leb, ◌==◌, if◌then◌else◌, length, take, drop,
}
use nksrv.BufReader.{ReadErr}
use nksrv.BufReader.Stream.{Item}
use nksrv.BufReader.Until.{found, not_found, broken}
use nksrv.BufReader.Until.Items.{Upto, upto}
use nksrv.Nntp.Syntax.{is_number_slice, stoi}

-- `clientState`, without `initialResponseUnderstod`, which nothing reads.
pub record ClientState : Type 0 where
  pub initial_response_allow_post : Bool
  pub bad_active_list : Bool
  pub bad_newsgroups_list : Bool
  pub bad_capabilities : Bool
  pub bad_hdr : Bool
  pub bad_xhdr : Bool
  pub bad_over : Bool
  pub bad_xover : Bool
  pub cap_hdr : Bool
  pub cap_over : Bool
  pub cap_reader : Bool
  pub allow_large_over : Bool
  pub workaround_stupid_active_list : Bool

abbrev pub new_client_state : ClientState
new_client_state = record {
  initial_response_allow_post = false;
  bad_active_list = false;
  bad_newsgroups_list = false;
  bad_capabilities = false;
  bad_hdr = false;
  bad_xhdr = false;
  bad_over = false;
  bad_xover = false;
  cap_hdr = false;
  cap_over = false;
  cap_reader = false;
  allow_large_over = false;
  workaround_stupid_active_list = false;
}

abbrev pub can_hdr : ClientState → Bool
can_hdr s = s.cap_hdr && not s.bad_hdr

abbrev pub can_xhdr : ClientState → Bool
can_xhdr s = not s.bad_xhdr

abbrev pub can_over : ClientState → Bool
can_over s = s.cap_over && not s.bad_over

abbrev pub can_xover : ClientState → Bool
can_xover s = not s.bad_xover

-- `len(c.inbuf)`.
abbrev pub inbuf_size : ℕ
inbuf_size = 512

-- An error of the reader, `errTooLargeResponse`, and the errors of `parseResponseCode`.
pub data ResponseErr : Type 0 where
  read_failed : ReadErr → ResponseErr
  too_large not_understood out_of_range : ResponseErr

-- `rest` behind an error is only logged.
pub data Response : Type 0 where
  response : ℕ → Bytes → Response
  no_response : ResponseErr → Response

-- A line that ends with LF, without it and a CR in front of it.
abbrev pub cut_line_end : Bytes → Bytes
cut_line_end [] = []
cut_line_end (c ∷ []) = []
cut_line_end (c ∷ d ∷ []) = if c == b'\r' then [] else c ∷ []
cut_line_end (c ∷ d ∷ e ∷ s) = c ∷ cut_line_end (d ∷ e ∷ s)

pub data LineRead : Type 0 where
  line_read : Bytes → LineRead
  no_line : ResponseErr → LineRead

-- `readLine`.
abbrev pub line_of : Upto → LineRead
line_of t = elim t.how [
  | found ↦ line_read (cut_line_end t.bytes)
  | not_found ↦ no_line too_large
  | broken e ↦ no_line (read_failed e)
]

unfoldable pub read_line : List Item → LineRead × List Item
read_line is = let t = upto inbuf_size b'\n' is in (line_of t, t.rest)

-- Whether the byte behind the code, if there is one, is a space.
abbrev pub starts_with_space : Bytes → Bool
starts_with_space [] = true
starts_with_space (c ∷ s) = c == b' '

-- `parseResponseCode`.
unfoldable pub parse_response_code : Bytes → Response
parse_response_code line =
    if ltb (length line) 3
      || not (is_number_slice (take 3 line))
      || not (starts_with_space (drop 3 line))
    then no_response not_understood
    else let code = stoi (take 3 line) in
      if ltb code 100 || leb 600 code then no_response out_of_range else response code (drop 3 line)

-- Spaces are skipped, and a word is cut off.
abbrev pub skip_spaces : Bytes → Bytes
skip_spaces [] = []
skip_spaces (c ∷ s) = if c == b' ' then skip_spaces s else c ∷ s

abbrev pub cut_word : Bytes → Bytes × Bytes
cut_word [] = ([], [])
cut_word (c ∷ s) = let t = cut_word s in if c == b' ' then ([], c ∷ s) else (c ∷ t.0, t.1)

-- The loop of `parseResponseArguments`, for so many arguments.
unfoldable pub arguments_loop : ℕ → Bytes → List Bytes
arguments_loop zero line = []
arguments_loop (suc num) line =
    let t = cut_word (skip_spaces line) in
    let args = arguments_loop num t.1 in if length t.0 == 0 then [] else t.0 ∷ args

-- `parseResponseArguments`, of a number that is not negative; what is left of the line is not used.
unfoldable pub parse_response_arguments : Bytes → ℕ → List Bytes
parse_response_arguments line num = arguments_loop num (drop 1 line)

-- `readResponse`; an error of `readLine` is fatal.
abbrev pub response_of : LineRead → Response × Bool
response_of (no_line e) = (no_response e, true)
response_of (line_read line) = (parse_response_code line, false)

unfoldable pub read_response : List Item → (Response × Bool) × List Item
read_response is = let t = read_line is in (response_of t.0, t.1)

-- `handleInitial`: the flag it sets, or an error.
abbrev pub initial_of : Response → Option Bool
initial_of (no_response e) = none
initial_of (response code rest) =
    if code == 200 then some true else if code == 201 then some false else none

unfoldable pub handle_initial : List Item → Option Bool × List Item
handle_initial is = let t = read_response is in (initial_of t.0.0, t.1)
