-- ===== src/Chain.antt =====
-- lib/c/2014/labcomm2014.c, the calls of a reader or a writer through its chain of action tables.
-- A function is called with its place in the chain, from which it may call on; a chain that is
-- NULL cannot be followed.
pub mod First
use labcomm_core.Common.{
  ℕ, ◌+◌, Bool, Option, none, some, List, [], ◌∷◌, ℤ, minus_enosys, Cmd, halt, pure,
}

module _ {S : Type 0} where
  -- The function of a table, or else what comes behind it, if anything does.
  abbrev pub call_or_next : {L : Type 0} → ℕ → List L → Cmd S ℤ → Option (ℕ → Cmd S ℤ) → Cmd S ℤ
  call_or_next place rest next (some f) = f place
  call_or_next place [] next none = pure minus_enosys
  call_or_next place (x ∷ xs) next none = next

  -- UNWRAP: the first table from `place` on that has the function.
  unfoldable pub unwrap : {L : Type 0} → (L → Option (ℕ → Cmd S ℤ)) → ℕ → List L → Cmd S ℤ
  unwrap func place [] = λ s. halt
  unwrap func place (table ∷ rest) =
      let next = unwrap func (place + 1) rest in call_or_next place rest next (func table)

  abbrev pub with_arguments : {X : Type 0} → X → Option (X → ℕ → Cmd S ℤ) → Option (ℕ → Cmd S ℤ)
  with_arguments x none = none
  with_arguments x (some f) = some (f x)

-- A value is NULL in a registration; the request of an ioctl comes with its arguments.
pub record ReaderTable (S Signature Value Args : Type 0) : Type 0 where
  pub alloc : Option (ℕ → Cmd S ℤ)
  pub free : Option (ℕ → Cmd S ℤ)
  pub start : Option (ℤ × (ℤ × (Signature × Option Value)) → ℕ → Cmd S ℤ)
  pub finish : Option (ℕ → Cmd S ℤ)
  pub fill : Option (ℕ → Cmd S ℤ)
  pub ioctl : Option (ℤ × (ℤ × (Signature × (ℕ × Args))) → ℕ → Cmd S ℤ)

pub record WriterTable (S Signature Value Args : Type 0) : Type 0 where
  pub alloc : Option (ℕ → Cmd S ℤ)
  pub free : Option (ℕ → Cmd S ℤ)
  pub start : Option (ℤ × (Signature × Option Value) → ℕ → Cmd S ℤ)
  pub finish : Option (ℕ → Cmd S ℤ)
  pub flush : Option (ℕ → Cmd S ℤ)
  pub ioctl : Option (ℤ × (Signature × (ℕ × Args)) → ℕ → Cmd S ℤ)

module _ {S Signature Value Args : Type 0} where
  abbrev pub reader_alloc_chain : ℕ → List (ReaderTable S Signature Value Args) → Cmd S ℤ
  reader_alloc_chain = unwrap (λ t. t.alloc)

  abbrev pub reader_free_chain : ℕ → List (ReaderTable S Signature Value Args) → Cmd S ℤ
  reader_free_chain = unwrap (λ t. t.free)

  abbrev pub reader_start_chain :
      ℤ × (ℤ × (Signature × Option Value)) → ℕ → List (ReaderTable S Signature Value Args) → Cmd S ℤ
  reader_start_chain x = unwrap (λ t. with_arguments x t.start)

  abbrev pub reader_end_chain : ℕ → List (ReaderTable S Signature Value Args) → Cmd S ℤ
  reader_end_chain = unwrap (λ t. t.finish)

  abbrev pub reader_fill_chain : ℕ → List (ReaderTable S Signature Value Args) → Cmd S ℤ
  reader_fill_chain = unwrap (λ t. t.fill)

  abbrev pub reader_ioctl_chain :
      ℤ × (ℤ × (Signature × (ℕ × Args))) → ℕ → List (ReaderTable S Signature Value Args) → Cmd S ℤ
  reader_ioctl_chain x = unwrap (λ t. with_arguments x t.ioctl)

  abbrev pub writer_alloc_chain : ℕ → List (WriterTable S Signature Value Args) → Cmd S ℤ
  writer_alloc_chain = unwrap (λ t. t.alloc)

  abbrev pub writer_free_chain : ℕ → List (WriterTable S Signature Value Args) → Cmd S ℤ
  writer_free_chain = unwrap (λ t. t.free)

  abbrev pub writer_start_chain :
      ℤ × (Signature × Option Value) → ℕ → List (WriterTable S Signature Value Args) → Cmd S ℤ
  writer_start_chain x = unwrap (λ t. with_arguments x t.start)

  abbrev pub writer_end_chain : ℕ → List (WriterTable S Signature Value Args) → Cmd S ℤ
  writer_end_chain = unwrap (λ t. t.finish)

  abbrev pub writer_flush_chain : ℕ → List (WriterTable S Signature Value Args) → Cmd S ℤ
  writer_flush_chain = unwrap (λ t. t.flush)

  abbrev pub writer_ioctl_chain :
      ℤ × (Signature × (ℕ × Args)) → ℕ → List (WriterTable S Signature Value Args) → Cmd S ℤ
  writer_ioctl_chain x = unwrap (λ t. with_arguments x t.ioctl)
