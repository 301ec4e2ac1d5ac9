-- ===== src/Materialize/StackResults.antt =====
-- The collector's mirror of all stack results of a method: `storeResults` of materialize.go.
use go_weave.Prelude.{ℕ, ◌+◌, ◌*◌, ◌≤◌, ◌≡◌, some, List, [], ◌∷◌, if◌then◌else◌, All, get_elem?}
use go_weave.Abi.Types.{GoType, FuncType}
use go_weave.Abi.Assign.{step_stack, Step, steps_for_value}
use go_weave.Abi.Layout.{AbiLayout, ptr_offsets}
use go_weave.Abi.StackArea.{slots, Apart}
use go_weave.Materialize.Memory.{Frame}
use go_weave.Materialize.Values.{GoValue, Host}
use go_weave.Materialize.Results.{is_iface}
use go_weave.Materialize.Kept.{content}
use go_weave.Materialize.Stored.{chosen, Throughout}
use go_weave.Materialize.Mirrored.{MirroredAt}

-- The words of a value in the stack area that go to the mirror: those that `ptrOffsets` lists, but of
-- an interface the data word alone, as `scatterIface` writes it. The first word of an interface, an
-- itab or a type, which `ptrOffsets` lists too, is not mirrored.
abbrev pub mirrored_words : GoType → List ℕ
mirrored_words t = if is_iface t then 8 ∷ [] else ptr_offsets t 0

-- What stands in the stack area has its pointer words in the mirror.
abbrev pub AreMirrored : GoType → (ℕ → ℕ) → Frame → List Step → Type 0
AreMirrored t f m sts =
    All (λ st. st.kind ≡ step_stack → All (MirroredAt st.stk_off f m) (mirrored_words t)) sts

-- Mirrors of the words that end before `from` stay.
abbrev pub StaysBelow : ℕ → Frame → Frame → Type 0
StaysBelow from m m' = (i : ℕ) → 8 * i + 8 ≤ from → m'.stack_ptrs i ≡ m.stack_ptrs i

-- After a value is stored: the mirror below `from` stays, and as long as the mirror below `next` stays
-- from then on, the value is mirrored.
record Lasting (t : GoType) (f : ℕ → ℕ) (m m' : Frame) (from next : ℕ) (sts : List Step)
    : Type 0 where
  onward : from ≤ next
  below_stays : StaysBelow from m m'
  lasts : (m'' : Frame) → StaysBelow next m' m'' → AreMirrored t f m'' sts

-- One result, which leaves the slots from `next` on to the results that follow.
abbrev Mirrors : Host → GoType → GoValue → List Step → List Step → Frame → Frame → ℕ → ℕ → Type 0
Mirrors h t v sts rest m m' from to =
    (next : ℕ) × Apart next (slots rest) to × Lasting t (content h t v) m m' from next sts

-- The loop: each result is mirrored in the end.
abbrev AllMirrored :
    Host → List GoValue → List GoValue → Frame → ℕ → List GoType → List (List Step) → Type 0
AllMirrored h zeros rets m =
    Throughout (λ i t g. AreMirrored t (content h t (chosen h t zeros rets i)) m g)

-- Every result that is in the stack area is mirrored.
abbrev pub ResultsMirrored :
    Host → FuncType → AbiLayout → List GoValue → List GoValue → Frame → Type 0
ResultsMirrored h ft l zeros rets m =
    (i : ℕ) (t : GoType)
    → get_elem? ft.outs i ≡ some t
    → AreMirrored t (content h t (chosen h t zeros rets i)) m (steps_for_value l.ret i)
