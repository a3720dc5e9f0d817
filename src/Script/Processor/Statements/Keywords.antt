-- ===== src/Script/Processor/Statements/Keywords.antt =====
-- The keywords of statements, and the values that statements look at (p44script.cpp, p44script.hpp).
use p44utils.Prelude.{ℕ, Bool, false, Option, none, some, List, [], ◌∷◌, if◌then◌else◌}
use p44utils.Script.Processor.State.{Hooks}

abbrev pub word_if : List ℕ
word_if = b'i' ∷ b'f' ∷ []

abbrev pub word_else : List ℕ
word_else = b'e' ∷ b'l' ∷ b's' ∷ b'e' ∷ []

abbrev pub word_foreach : List ℕ
word_foreach = b'f' ∷ b'o' ∷ b'r' ∷ b'e' ∷ b'a' ∷ b'c' ∷ b'h' ∷ []

abbrev pub word_for : List ℕ
word_for = b'f' ∷ b'o' ∷ b'r' ∷ []

abbrev pub word_while : List ℕ
word_while = b'w' ∷ b'h' ∷ b'i' ∷ b'l' ∷ b'e' ∷ []

abbrev pub word_break : List ℕ
word_break = b'b' ∷ b'r' ∷ b'e' ∷ b'a' ∷ b'k' ∷ []

abbrev pub word_continue : List ℕ
word_continue = b'c' ∷ b'o' ∷ b'n' ∷ b't' ∷ b'i' ∷ b'n' ∷ b'u' ∷ b'e' ∷ []

abbrev pub word_return : List ℕ
word_return = b'r' ∷ b'e' ∷ b't' ∷ b'u' ∷ b'r' ∷ b'n' ∷ []

abbrev pub word_try : List ℕ
word_try = b't' ∷ b'r' ∷ b'y' ∷ []

abbrev pub word_catch : List ℕ
word_catch = b'c' ∷ b'a' ∷ b't' ∷ b'c' ∷ b'h' ∷ []

abbrev pub word_concurrent : List ℕ
word_concurrent = b'c' ∷ b'o' ∷ b'n' ∷ b'c' ∷ b'u' ∷ b'r' ∷ b'r' ∷ b'e' ∷ b'n' ∷ b't' ∷ []

abbrev pub word_var : List ℕ
word_var = b'v' ∷ b'a' ∷ b'r' ∷ []

abbrev pub word_threadvar : List ℕ
word_threadvar = b't' ∷ b'h' ∷ b'r' ∷ b'e' ∷ b'a' ∷ b'd' ∷ b'v' ∷ b'a' ∷ b'r' ∷ []

abbrev pub word_global : List ℕ
word_global = b'g' ∷ b'l' ∷ b'o' ∷ b'b' ∷ b'a' ∷ b'l' ∷ []

abbrev pub word_function : List ℕ
word_function = b'f' ∷ b'u' ∷ b'n' ∷ b'c' ∷ b't' ∷ b'i' ∷ b'o' ∷ b'n' ∷ []

abbrev pub word_on : List ℕ
word_on = b'o' ∷ b'n' ∷ []

abbrev pub word_glob : List ℕ
word_glob = b'g' ∷ b'l' ∷ b'o' ∷ b'b' ∷ []

abbrev pub word_let : List ℕ
word_let = b'l' ∷ b'e' ∷ b't' ∷ []

abbrev pub word_unset : List ℕ
word_unset = b'u' ∷ b'n' ∷ b's' ∷ b'e' ∷ b't' ∷ []

abbrev pub word_local : List ℕ
word_local = b'l' ∷ b'o' ∷ b'c' ∷ b'a' ∷ b'l' ∷ []

abbrev pub word_include : List ℕ
word_include = b'i' ∷ b'n' ∷ b'c' ∷ b'l' ∷ b'u' ∷ b'd' ∷ b'e' ∷ []

abbrev pub word_as : List ℕ
word_as = b'a' ∷ b's' ∷ []

abbrev pub word_default : List ℕ
word_default = b'd' ∷ b'e' ∷ b'f' ∷ b'a' ∷ b'u' ∷ b'l' ∷ b't' ∷ []

-- Directives of a member access.
abbrev pub only_create : ℕ
only_create = 0x40000

abbrev pub unset_member_flag : ℕ
unset_member_flag = 0x100000

abbrev pub global : ℕ
global = 0x200000

abbrev pub thread_local : ℕ
thread_local = 0x400000

module _ {V W : Type 0} (h : Hooks V W) where
  -- The Boolean of a result; one that is null is not asked for it.
  abbrev pub truth_of : Option V → Bool
  truth_of none = false
  truth_of (some v) = h.values.truth v

  abbrev pub error_of : Option V → Bool
  error_of none = false
  error_of (some v) = h.values.is_err v

  -- A dynamic cast to an lvalue.
  abbrev pub lvalue_of : Option V → Option V
  lvalue_of none = none
  lvalue_of (some v) = if h.values.is_lvalue v then some v else none

  abbrev pub object_of : Option V → V
  object_of none = h.values.null_value
  object_of (some v) = v
