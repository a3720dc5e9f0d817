-- ===== src/Script/Processor/Statements/Foreach.antt =====
-- foreach (p44script.cpp).
use p44utils.Prelude.{ℕ, ◌+◌, true, not, Option, none, some, List, if◌then◌else◌, is_some}
use p44utils.Script.Cursor.{
  Cursor, next_code_if, skip_non_code, check_for_identifier, parse_identifier,
}
use p44utils.Script.Processor.State.{
  Processor, Hooks, Helper, ForEachController, no_helper, for_while, for_each, s_one_statement,
  s_foreach_loop_var1, s_foreach_loop_vars, s_foreach_loop_start, s_foreach_loop_iteration,
  s_foreach_key_needed, s_foreach_body, s_foreach_statement, missing_as, missing_variable_name,
}
use p44utils.Script.Processor.Stack.{
  push, pop, exit_with_syntax_error, check_and_resume, resume_with,
}
use p44utils.Script.Processor.Terms.{lvalue, create}
use p44utils.Script.Processor.Statements.Keywords.{word_as, lvalue_of, object_of}

module _ {V W : Type 0} (h : Hooks V W) where
  abbrev pub new_each : V → ForEachController V
  new_each v = record { iterator = v; loop_value = none; loop_key = none }

  abbrev pub each_controller : Helper V → ForEachController V
  each_controller no_helper = new_each h.values.null_value
  each_controller (for_while c) = new_each h.values.null_value
  each_controller (for_each c) = c

  abbrev pub each_of : Processor V W → ForEachController V
  each_of p = each_controller p.helper

  -- assignLValue, with the result as it is where nothing comes back.
  abbrev pub stored : Option V → Option V → Processor V W → Processor V W
  stored none value p = p
  stored (some target) value p =
      let (r, w) = h.assign_lvalue target value p.world in resume_with h r (record p { world = w })

  unfoldable pub foreach_variable : Option (List ℕ × Cursor) → Processor V W → Processor V W
  unfolding exit_with_syntax_error check_and_resume
  foreach_variable none p = exit_with_syntax_error h missing_variable_name p
  foreach_variable (some found) p =
      let q = record p {
        identifier = found.0;
        src = found.1;
        current_state = some s_foreach_loop_var1;
      } in
      if not q.skipping
      then h.member_by_identifier (lvalue + create) (record q {
        helper = for_each (new_each (h.new_iterator (object_of h q.result)));
        result = none;
      })
      else check_and_resume h q

  unfoldable pub foreach_target : Processor V W → Processor V W
  unfolding skip_non_code check_for_identifier parse_identifier foreach_variable
      exit_with_syntax_error
  foreach_target p =
      let at = skip_non_code p.src in
      let (has_as, behind) = check_for_identifier word_as at in
      let name = skip_non_code behind in
      if has_as
      then foreach_variable (parse_identifier name) (record p { src = name })
      else exit_with_syntax_error h missing_as (record p { src = at })

  abbrev pub with_value : Processor V W → Processor V W
  with_value p =
      if not p.skipping
      then record p { helper = for_each (record (each_of p) { loop_value = lvalue_of h p.result }) }
      else p

  unfoldable pub foreach_loop_vars : Processor V W → Processor V W
  unfolding check_and_resume
  foreach_loop_vars p =
      check_and_resume h (record (with_value p) { current_state = some s_foreach_loop_start })

  unfoldable pub foreach_value : Option (List ℕ × Cursor) → Processor V W → Processor V W
  unfolding exit_with_syntax_error check_and_resume
  foreach_value none p = exit_with_syntax_error h missing_variable_name p
  foreach_value (some found) p =
      let q = record p {
        identifier = found.0;
        src = found.1;
        current_state = some s_foreach_loop_vars;
      } in
      if not q.skipping
      then h.member_by_identifier (lvalue + create) (record q {
        helper = for_each (record (each_of q) { loop_key = lvalue_of h q.result });
        result = none;
      })
      else check_and_resume h q

  unfoldable pub foreach_loop_var1 : Processor V W → Processor V W
  unfolding next_code_if skip_non_code parse_identifier foreach_value foreach_loop_vars
  foreach_loop_var1 p =
      let (has_key, behind) = next_code_if b',' p.src in
      let name = skip_non_code behind in
      if not has_key
      then foreach_loop_vars (record p { src = behind })
      else foreach_value (parse_identifier name) (record p { src = name })

  unfoldable pub foreach_body : Processor V W → Processor V W
  unfolding push check_and_resume
  foreach_body p =
      check_and_resume h
        (record (push h s_foreach_statement p) { current_state = some s_one_statement })

  unfoldable pub foreach_loop_start : Processor V W → Processor V W
  unfolding foreach_body
  foreach_loop_start p =
      let e = each_of p in
      if p.skipping then foreach_body p else record p {
        helper = for_each (record e { iterator = h.iterator_reset e.iterator });
        current_state = some s_foreach_loop_iteration;
      }

  -- With the value that the iterator gives.
  unfoldable pub foreach_round : Option V → Processor V W → Processor V W
  unfolding foreach_body
  foreach_round none p = foreach_body (record p { result = none; skipping = true })
  foreach_round (some v) p =
      let e = each_of p in
      stored e.loop_value (some v) (record p {
        result = some v;
        current_state = some (if is_some e.loop_key then s_foreach_key_needed else s_foreach_body);
      })

  unfoldable pub foreach_loop_iteration : Processor V W → Processor V W
  unfolding foreach_round
  foreach_loop_iteration p = foreach_round (h.obtain_value (each_of p).iterator) p

  unfoldable pub foreach_key_needed : Processor V W → Processor V W
  foreach_key_needed p =
      let e = each_of p in
      stored e.loop_key (h.obtain_key e.iterator) (record p { current_state = some s_foreach_body })

  unfoldable pub foreach_statement : Processor V W → Processor V W
  unfolding pop check_and_resume
  foreach_statement p =
      let e = each_of p in
      if p.skipping then check_and_resume h (pop h p) else record p {
        helper = for_each (record e { iterator = h.iterator_next e.iterator });
        src = p.popped_src;
        current_state = some s_foreach_loop_iteration;
      }
