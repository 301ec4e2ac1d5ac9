-- ===== src/Materialize/Args.antt =====
-- Arguments on their way in: `materializeIface` and `materializeArgs` of materialize.go. `none` is a
-- panic. The frame that is read is the one of `argRegs`; the gather buffer is fresh.
use go_weave.Prelude.{
  ℕ, ◌+◌, Option, none, some, List, [], ◌∷◌, ◌==◌, ltb, if◌then◌else◌, get_elem?,
}
use go_weave.Abi.Types.{GoType, size, ptr_size}
use go_weave.Abi.Assign.{Step, steps_for_value}
use go_weave.Abi.Layout.{AbiLayout}
use go_weave.Materialize.Memory.{
  Addr, gather_buf, Frame, offset_by, memcpy, step_addr, word_at, and_then,
}
use go_weave.Materialize.Values.{GoValue, held, located, dynamic, Host}
use go_weave.Materialize.Results.{is_iface}

-- `reflect.Zero(t)`.
abbrev pub zero_value : GoType → GoValue
zero_value t = held t (λ k. 0)

-- The data word stands behind the first one, or in the register of the second step.
abbrev pub data_word : Host → Addr → List Step → Frame → Option ℕ
data_word h p [] m = some (word_at (offset_by p ptr_size) m)
data_word h p (st ∷ sts) m = and_then (step_addr h.arch st) (λ q. some (word_at q m))

-- `slot.Set`. The first word is taken for an itab whatever the type: of an `any` it is none.
abbrev pub set_slot : Host → GoType → ℕ → ℕ → Option GoValue
set_slot h t typ word = if h.can_set t typ then some (dynamic t typ word) else none

unfoldable pub materialize_iface : Host → GoType → List Step → Frame → Option GoValue
materialize_iface h t [] m = none
materialize_iface h t (st ∷ sts) m = and_then (step_addr h.arch st) (λ p.
    let tab = word_at p m in
    if tab == 0
    then some (zero_value t)
    else and_then (data_word h p sts m) (λ word. set_slot h t (h.itab_type tab) word))

-- `memcpy` for each step of a value, to its place in the buffer.
unfoldable pub gather_steps : Host → ℕ → List Step → Frame → Option Frame
gather_steps h at [] m = some m
gather_steps h at (st ∷ sts) m = and_then (step_addr h.arch st) (λ p.
    gather_steps h at sts (memcpy (record { area = gather_buf; off = at + st.offset }) p st.size m))

-- `&buf[l.argGather[i]]`, whose index is reg_at; `total` is the size of the buffer.
abbrev pub slot_at : ℕ → Option ℕ → Option ℕ
slot_at total none = none
slot_at total (some at) = if ltb at total then some at else none

-- A value with one step is described in place, any other is gathered.
abbrev pub materialize_value :
    Host → ℕ → GoType → Option ℕ → List Step → Frame → Option (Frame × GoValue)
materialize_value h total t at (st ∷ []) m =
    and_then (step_addr h.arch st) (λ p. some (m, located t p))
materialize_value h total t at steps m = and_then (slot_at total at) (λ at.
    and_then (gather_steps h at steps m)
      (λ m'. some (m', located t (record { area = gather_buf; off = at }))))

unfoldable pub materialize_arg :
    Host → ℕ → GoType → Option ℕ → List Step → Frame → Option (Frame × GoValue)
materialize_arg h total t at steps m =
    if size t == 0
    then some (m, zero_value t)
    else if is_iface t
    then and_then (materialize_iface h t steps m) (λ v. some (m, v))
    else materialize_value h total t at steps m

-- The loop over the parameters, from parameter `i`; value 0 is the receiver.
unfoldable pub args_loop :
    Host → AbiLayout → ℕ → List GoType → Frame → Option (Frame × List GoValue)
args_loop h l i [] m = some (m, [])
args_loop h l i (t ∷ ts) m =
    and_then
      (materialize_arg h l.gather_bytes t (get_elem? l.arg_gather i)
        (steps_for_value l.call (i + 1)) m)
      (λ r. and_then (args_loop h l (i + 1) ts r.0) (λ rest. some (rest.0, r.1 ∷ rest.1)))

abbrev pub materialize_args : Host → AbiLayout → List GoType → Frame → Option (Frame × List GoValue)
materialize_args h l ins m = args_loop h l 0 ins m
