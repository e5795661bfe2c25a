-- ===== src/Tests/Shell.antt =====
-- The keys and the moves of the selection at concrete inputs.
use protospy.Prelude.{◌≡◌, refl, ℕ, ◌≤◌, true, false, none, [], ◌∷◌, codes, length, arith, inl, inr}
use protospy.Store.Labels.{IsLabelled}
use protospy.Store.State.{StoreState, initial_state, oldest}
use protospy.Store.Selectors.{select_visible_ids}
use protospy.Store.Consistency.{Distinct}
use protospy.Shell.Moves.{select, select_next, select_exchange, index_of_id, is_in_trace}
use protospy.Shell.Keys.{KeyPress}
use protospy.Shell.Selection.{IsSelection, navigate, to_trace, Has, navigate-IsSelection}
use protospy.Shell.Stepping.{presses, presses_reach}
use protospy.Shell.Cycling.{first_wanted, rotated, select_next_lem}
use protospy.Shell.Dialogs.{IsExclusive}
use protospy.Tests.Samples.{plain_runtime, big_table, with_bytes}

-- three exchanges, the oldest first, and nothing is selected
abbrev three : StoreState
three = record initial_state { table = big_table; order = oldest }

three_visible : select_visible_ids three ≡ 1 ∷ 2 ∷ 3 ∷ []
unfolding select_visible_ids initial_state
three_visible = refl

three-IsLabelled : IsLabelled three.table
unfolding initial_state
three-IsLabelled = omega arith

three-Distinct : Distinct (select_visible_ids three)
unfolding select_visible_ids initial_state
three-Distinct = omega arith

unselected : three.selected_id ≡ none
unfolding initial_state
unselected = refl

no_palette : three.cmd_k_open ≡ false
unfolding initial_state
no_palette = refl

no_help : three.help_open ≡ false
unfolding initial_state
no_help = refl

two_is_visible : Has 2 (select_visible_ids three)
unfolding select_visible_ids initial_state
two_is_visible = inr (inl refl)

navigate-IsSelection_example :
    IsSelection plain_runtime three
      (navigate plain_runtime (to_trace (with_bytes 2 5) (codes "t")) three)
navigate-IsSelection_example =
    navigate-IsSelection plain_runtime three (to_trace (with_bytes 2 5) (codes "t"))
      three-IsLabelled

presses_reach_example :
    (n : ℕ) × (n ≤ length (select_visible_ids three))
    × (presses plain_runtime n three ≡ select plain_runtime 2 three)
presses_reach_example =
    presses_reach plain_runtime three 2 three-Distinct unselected no_palette no_help two_is_visible

select_next_lem_example :
    select_next plain_runtime (is_in_trace (codes "t")) (with_bytes 2 5) three
    ≡ select_exchange plain_runtime
        (first_wanted (is_in_trace (codes "t")) three.table.exchanges (
          rotated
            (index_of_id (with_bytes 2 5).id (select_visible_ids three))
            (select_visible_ids three)))
        three
select_next_lem_example =
    select_next_lem plain_runtime (is_in_trace (codes "t")) (with_bytes 2 5) three

abbrev palette_key : KeyPress
palette_key = record { key = codes "K"; command = true; typing = true }

three-IsExclusive : IsExclusive three
unfolding initial_state
three-IsExclusive = refl
