-- ===== src/Tests/Abi.antt =====
-- The layout of one method on amd64 and arm64:
-- `func(string, [4]uint16, struct{ p []byte; x float64 }, complex128) (string, [2]*int)`.
use go_weave.Prelude.{ℕ, suc, ◌<◌, ◌≡◌, refl, arith, true, some, List, [], ◌∷◌, get_elem?, ◌++◌}
use go_weave.Prelude.Bits.{has_bit}
use go_weave.Abi.Types.{
  uint16, slice, string, float64, complex128, pointer, GoType, basic, array, struct, no_fields,
  field, FuncType, amd64,
}
use go_weave.Abi.Assign.{
  Step, Seq, empty_seq, steps_for_value, fits, reg_assign, assign_int_n, assign_float_n, int_steps,
  float_steps,
}
use go_weave.Abi.Layout.{AbiLayout, new_abi_layout, ptr_offsets}
use go_weave.Abi.Sane.{IsSane}
use go_weave.Abi.Parts.{ptr_part, int_part, float_part, place, flatten, assign_parts, InFile}
use go_weave.Abi.Equivalence.{reg_assign-assign_parts}
use go_weave.Abi.Values.{IsMethod}
use go_weave.Abi.Registers.{IsNumbered, layout_registers}
use go_weave.Abi.Segments.{ValueSteps}
use go_weave.Abi.Steps.{layout_values, rcvr_type}
use go_weave.Abi.PtrMask.{passes_pointer, ptr_mask_bits}
use go_weave.Abi.Pointers.{pointer_steps, reg_assign-ptr_offsets}
use go_weave.Abi.StackArea.{AreaIsSound, layout_area}

abbrev text : GoType
text = basic string 16 8

abbrev words : GoType
words = array 4 (basic uint16 2 2) 8 2

abbrev buffer : GoType
buffer = struct (field 0 (basic slice 24 8) (field 24 (basic float64 8 8) no_fields)) 32 8

abbrev pair : GoType
pair = array 2 (basic pointer 8 8) 16 8

abbrev send : FuncType
send = record { ins = text ∷ words ∷ buffer ∷ basic complex128 16 8 ∷ []; outs = text ∷ pair ∷ [] }

send-IsMethod : IsMethod amd64 send
send-IsMethod = omega arith

fresh-InFile : InFile amd64 empty_seq
fresh-InFile = omega arith

buffer-IsSane : IsSane buffer
buffer-IsSane = omega arith

reg_assign-assign_parts_example :
    reg_assign amd64 buffer 0 empty_seq ≡ assign_parts amd64 (flatten buffer 0) empty_seq
reg_assign-assign_parts_example =
    reg_assign-assign_parts amd64 buffer 0 empty_seq buffer-IsSane fresh-InFile

layout_registers_example :
    (l : AbiLayout) × (new_abi_layout amd64 send ≡ some l)
    × IsNumbered amd64 l.call
    × IsNumbered amd64 l.ret
layout_registers_example = layout_registers amd64 send send-IsMethod

layout_values_example :
    (l : AbiLayout) × (new_abi_layout amd64 send ≡ some l)
    × ValueSteps rcvr_type (steps_for_value l.call 0)
    × ((i : ℕ) (t : GoType)
        → get_elem? send.ins i ≡ some t
        → ValueSteps t (steps_for_value l.call (suc i)))
    × ((i : ℕ) (t : GoType)
        → get_elem? send.outs i ≡ some t
        → ValueSteps t (steps_for_value l.ret i))
layout_values_example = layout_values amd64 send send-IsMethod

ptr_mask_bits_example :
    (l : AbiLayout) × (new_abi_layout amd64 send ≡ some l)
    × ((i : ℕ) → i < 32 → has_bit 32 l.ptr_mask i ≡ passes_pointer i l.call.steps)
    × (has_bit 32 l.ptr_mask 0 ≡ true)
ptr_mask_bits_example = ptr_mask_bits amd64 send send-IsMethod (omega arith)

layout_area_example : (l : AbiLayout) × (new_abi_layout amd64 send ≡ some l) × AreaIsSound send l
layout_area_example = layout_area amd64 send send-IsMethod (omega arith)

abbrev assigned : Seq
assigned = place (ptr_part 0 ∷ int_part 8 8 ∷ int_part 16 8 ∷ float_part 24 8 ∷ []) empty_seq

buffer_fits : reg_assign amd64 buffer 0 empty_seq ≡ fits assigned
unfolding reg_assign assign_int_n assign_float_n int_steps float_steps has_bit place
buffer_fits = refl

reg_assign-ptr_offsets_example :
    (added : List Step) × (assigned.steps ≡ empty_seq.steps ++ added)
    × (pointer_steps added ≡ ptr_offsets buffer 0)
reg_assign-ptr_offsets_example =
    reg_assign-ptr_offsets amd64 buffer empty_seq assigned buffer-IsSane fresh-InFile
      ((λ e. cc), ((λ e. cc), tt)) buffer_fits
