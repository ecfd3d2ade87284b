-- ===== src/Puller/Tests.antt =====
-- The puller on concrete input, and its theorems applied to it.
use nksrv.Base.{
  ℕ, ◌-◌, ◌^◌, ◌≡◌, refl, Bool, true, false, List, [], ◌∷◌, ◌++◌, map, Option, none, some, codes,
  arith,
}
use nksrv.Base.Int.{pos}
use nksrv.BufReader.Stream.{Item, byte}
use nksrv.DotReader.{process}
use nksrv.DotReader.Scan.{scan}
use nksrv.DotReader.Scan.Ending.{ending}
use nksrv.Puller.Response.{
  new_client_state, read_response, read_line, parse_response_code, parse_response_arguments,
  arguments_loop,
}
use nksrv.BufReader.Until.Items.{upto}
use nksrv.Nntp.Syntax.{
  is_number_slice, stoi, full_valid_group_slice, valid_message_id, cut_message_id,
}
use nksrv.Ascii.{is_printable_ascii, trim_left_ws, equal_fold}
use nksrv.Puller.Lists.{
  Call, start_temp_groups, finish_temp_groups, store_temp_group_id, get_group_id, Env, Client,
  Result, do_active_list, do_newsgroups_list, lines_loop, store_known,
}
use nksrv.Puller.Lines.{
  ok, parse_hdr_line, parse_group_response, parse_list_active_line, skip_non_ws,
}
use nksrv.Puller.Lists.Behind.{Returns}
use nksrv.Puller.Lists.Calls.{IsBracketed, lists-IsBracketed}
use nksrv.Puller.Lists.InStep.{lists-in_step}
use nksrv.Puller.Group.{eats, do_group, scan_group}
use nksrv.Puller.Group.Bounds.{scan_group-eats}
use nksrv.Puller.SliceList.{range_text, decimal, list_slice}
use nksrv.Puller.SliceList.Tries.{IsListed, list_slice-IsListed}
use nksrv.Puller.Slices.{Slice, eat_group, slices_loop}
use nksrv.Puller.Slices.Chain.{IsSliced, eat_group-IsSliced}
use nksrv.Puller.Slices.Covers.{covered, eat_group-covers}
use nksrv.Puller.OverList.{eat_over_output}
use nksrv.Puller.OverList.Wanted.{IsEaten, eat_over_output-IsEaten}
use nksrv.Puller.Todo.{
  TodoArticle, Sys, Main, enqueue, poll_loop, poll_ref, ask, write_line, busy, by_main, by_worker,
  loop_passes, wanted, ref_passes, written, put, take, Reach, here, next, start,
}
use nksrv.Puller.Todo.Invariant.{IsOrdered}
use nksrv.Puller.Todo.Order.{Reach-IsOrdered}
use nksrv.Puller.Todo.Live.{Ends, Reach-Ends}

abbrev article : TodoArticle
article = record { id = 7; msgid = codes "<a@b>"; ref = [] }

abbrev asking : Main → List TodoArticle → Sys
asking m todo = record (start (article ∷ [])) { main = m; todo = todo }

abbrev was_sent : Sys
was_sent = record (asking (enqueue article) []) { sent = article ∷ [] }

abbrev was_put : Sys
was_put = record was_sent { main = poll_loop; chan = article ∷ [] }

abbrev was_taken : Sys
was_taken = record was_put { worker = busy article; chan = [] }

-- The article is asked for and its response is being read.
abbrev reached : Reach (article ∷ []) was_taken
reached =
    let r1 : Reach (article ∷ []) (asking (ask article) []) =
      next here (by_main (loop_passes article [] refl refl refl refl)) in
    let r2 : Reach (article ∷ []) (asking (poll_ref article) []) =
      next r1 (by_main (wanted article refl refl)) in
    let r3 : Reach (article ∷ []) (asking (write_line article) []) =
      next r2 (by_main (ref_passes article refl refl refl)) in
    let r4 : Reach (article ∷ []) was_sent = next r3 (by_main (written article refl refl)) in
    let r5 : Reach (article ∷ []) was_put =
      next r4 (by_main (put article refl (omega arith) refl)) in
    next r5 (by_worker (take article [] refl refl refl))

Reach-IsOrdered_example : IsOrdered was_taken
Reach-IsOrdered_example = Reach-IsOrdered (article ∷ []) was_taken reached

Reach-Ends_example : Ends was_taken
Reach-Ends_example = Reach-Ends (article ∷ []) was_taken reached

abbrev list_items : List Item
list_items =
    map byte (codes "215 list\r\n")
    ++ map byte (codes "misc.test 9 1 y\r\n.\r\n" ++ codes "200 ok\r\n")

abbrev env : Env
env = record { fails = λ cs c. false; group_id = λ cs g. pos 0; is_written = λ ls l. true }

abbrev client : Client
client = record { state = new_client_state; input = list_items; sent = []; calls = [] }

abbrev listed_calls : List Call
listed_calls =
    finish_temp_groups
    ∷ store_temp_group_id (codes "misc.test") 9
    ∷ get_group_id (codes "misc.test")
    ∷ start_temp_groups
    ∷ []

abbrev map_calls : Option (Client × Result) → Option (List Call)
map_calls none = none
map_calls (some r) = some r.0.calls

lists-IsBracketed_example :
    Returns (λ r. IsBracketed env [] r.0.calls r.1) (do_active_list env client)
    × Returns (λ r. IsBracketed env [] r.0.calls r.1) (do_newsgroups_list env client)
lists-IsBracketed_example = lists-IsBracketed env client

lists-in_step_example :
    Returns (λ r. r.0.input ≡ map byte (codes "200 ok\r\n")) (do_active_list env client)
    × Returns (λ r. r.0.input ≡ map byte (codes "200 ok\r\n")) (do_newsgroups_list env client)
unfolding read_response ending read_line upto parse_response_code is_number_slice stoi process
lists-in_step_example =
    lists-in_step env client (codes " list") (map byte (codes "200 ok\r\n")) (λ cmd. refl) refl refl

-- Slices that answer their ends.
abbrev slices : List Slice → ℕ → ℕ → ℕ → ℕ × Option Bool
slices cs r_begin r_end maxid = (r_end, none)

abbrev asked_slices : List Slice
asked_slices =
    record { r_begin = 811; r_end = 2 ^ 64 - 1; new_maxid = 2 ^ 64 - 1 }
    ∷ record { r_begin = 11; r_end = 810; new_maxid = 810 }
    ∷ []

eat_group-IsSliced_example : Returns (IsSliced 10 1200) (eat_group slices new_client_state 10 1200)
eat_group-IsSliced_example =
    eat_group-IsSliced slices new_client_state 10 1200 (omega arith) (omega arith)

eat_group-covers_example : covered 900 asked_slices ≡ true
unfolding eat_group slices_loop
eat_group-covers_example =
    eat_group-covers slices new_client_state 10 1200 900 asked_slices (omega arith) (omega arith)
      refl (omega arith) (omega arith)

abbrev over_items : List Item
over_items =
    map byte (codes "7\ts\ta\td\t<a@b>\t<r@s>\t5\t1\r\n" ++ codes "bad\r\n.\r\n" ++ codes "200")

eat_over_output-IsEaten_example :
    Returns (IsEaten 1 800 (map byte (codes "200"))) (eat_over_output 1 800 over_items)
unfolding ending process
eat_over_output-IsEaten_example =
    eat_over_output-IsEaten 1 800 over_items (map byte (codes "200")) (omega arith) refl

-- A line of the list is read, and the calls for it are made.
do_active_list_test : map_calls (do_active_list env client) ≡ some listed_calls
unfolding do_active_list lines_loop scan process read_response read_line upto parse_response_code
    is_number_slice stoi parse_list_active_line skip_non_ws full_valid_group_slice store_known
    trim_left_ws
do_active_list_test = refl

parse_hdr_line_test :
    parse_hdr_line (codes "7 <a@b>") ≡ ok (record { id = 7; msgid = codes "<a@b>" })
unfolding parse_hdr_line skip_non_ws is_number_slice stoi valid_message_id cut_message_id
    is_printable_ascii trim_left_ws equal_fold
parse_hdr_line_test = refl

abbrev group_client : Client
group_client = record client { input = map byte (codes "211 5 1 9 misc.test\r\n") }

scan_group-eats_example : Returns (IsSliced 3 9) (eat_group slices new_client_state 3 9)
unfolding scan_group do_group read_response read_line upto parse_response_code is_number_slice stoi
    parse_group_response parse_response_arguments arguments_loop
scan_group-eats_example =
    scan_group-eats slices new_client_state env (codes "misc.test") (2 ^ 64 - 1) 3 group_client
      (record { old_id = 3; new_id = 9; updates = [] }) refl

-- A group whose numbers start again is read from its start.
rescan_test :
    (scan_group env (codes "misc.test") 5 7 group_client).1
    ≡ eats (record { old_id = 0; new_id = 9; updates = 0 ∷ [] })
unfolding scan_group do_group read_response read_line upto parse_response_code is_number_slice stoi
    parse_group_response parse_response_arguments arguments_loop
rescan_test = refl

abbrev hdr_client : Client
hdr_client = record client { input = map byte (codes "221 list\r\n7 <a@b>\r\n.\r\n") }

list_slice-IsListed_example : Returns (IsListed 1 800) (list_slice env 1 800 hdr_client)
list_slice-IsListed_example = list_slice-IsListed env 1 800 hdr_client (omega arith)

range_test : range_text 11 810 ≡ codes "11-810"
unfolding decimal
range_test = refl
