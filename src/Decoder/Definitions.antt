-- ===== src/Decoder/Definitions.antt =====
-- The definitions of samples and references that a decoder receives: reader_skip,
-- TODO_read_intentions, handle_sample_def, handle_sample_ref and decode_sample_def_or_ref.
pub mod Binding
pub mod RoundTrip
pub mod Skip
use labcomm_core.Common.{
  ℕ, zero, suc, ◌+◌, ◌-◌, ◌^◌, ◌==◌, ◌≡◌, Bool, true, false, not, ◌&&◌, ◌||◌, length, Option, none,
  some, List, [], ◌∷◌, if◌then◌else◌, same_bytes, ℤ, pos, negsuc, is_neg, is_zero, eqb_ℤ, to_int,
  minus_enoent, Cmd, Run, pure, exit, gets, modify, ◌>>=◌, ◌>>◌,
}
use labcomm_core.Wire.{tag_sample_ref}
use labcomm_core.Reader.{Reader, ReaderAction, rounds, read_byte, read_packed32, read_string}
use labcomm_core.Signature.{Signature, name, flat, size}
use labcomm_core.SignatureArray.{array_get, array_set, array_items}
use labcomm_core.Decoder.{
  SampleEntry, Decoder, nil_entry, data_lock, data_unlock, on_reader, start_end,
}

-- The bytes of a C string before its NUL.
abbrev pub c_string : List ℕ → List ℕ
c_string [] = []
c_string (zero ∷ cs) = []
c_string (suc c ∷ cs) = suc c ∷ c_string cs

-- An `int` as the `size_t` of an allocation.
abbrev pub to_size : ℤ → ℕ
to_size (pos n) = n
to_size (negsuc n) = 2 ^ 64 - 1 - n

-- The signature that decode_sample_def_or_ref reads into a local variable; `none` is NULL.
pub record Received : Type 0 where
  pub name : Option (List ℕ)
  pub size : ℤ
  pub bytes : List ℕ

-- The condition of the loops of handle_sample_def and handle_sample_ref, for a signature that is
-- there. `none`: strcmp is called with NULL.
unfoldable pub is_received : Received → Signature → Option Bool
is_received signature s =
    if eqb_ℤ (pos (size s)) signature.size
    then elim signature.name [
      | none ↦ none
      | some n ↦ some (same_bytes (name s) (c_string n) && same_bytes (flat s) signature.bytes)
    ]
    else some false

-- The index of the first element that the loop stops at, or 0; elements that are NULL are passed.
-- `none`: the process ends on the way.
unfoldable pub find_received : Received → List (ℤ × Option Signature) → Option (Option ℤ)
find_received signature [] = some none
find_received signature ((i, none) ∷ rest) = find_received signature rest
find_received signature ((i, some s) ∷ rest) =
    let later = find_received signature rest in
    elim (is_received signature s) [ none ↦ none | some true ↦ some (some i) | some false ↦ later ]

module _ {C : Type 0} (act : ReaderAction C) where
  -- `for(i = 0 ; i < len ; i++)` of reader_skip, until a read fails; then the error.
  skip_loop : ℕ → Cmd (Reader C) ℤ
  skip_loop zero = pure (pos 0)
  skip_loop (suc n) = do
    read_byte act
    error ← gets (λ r. r.error)
    if is_neg error then pure error else skip_loop n

  pub reader_skip : ℤ → ℤ → Cmd (Reader C) ℤ
  unfolding skip_loop
  reader_skip len tag = do
    error ← skip_loop (rounds len)
    pure (if is_neg error then error else tag)

  -- `for(i = 0 ; i < signature.size ; i++)` of decode_sample_def_or_ref: the bytes up to the first
  -- failure.
  pub read_bytes : ℕ → Cmd (Reader C) (List ℕ)
  read_bytes zero = pure []
  read_bytes (suc n) = do
    b ← read_byte act
    error ← gets (λ r. r.error)
    if is_neg error then pure [] else (do rest ← read_bytes n; pure (b ∷ rest))

  module _ (fuel : ℕ) where
    -- The loop of TODO_read_intentions, with the name so far.
    intentions_loop : ℕ → Option (List ℕ) → Cmd (Reader C) (Option (List ℕ))
    intentions_loop zero before = pure before
    intentions_loop (suc n) before = do
      klen ← read_packed32 act fuel
      name ← if is_zero (to_int klen) then read_string act fuel else (do
        reader_skip (to_int klen) (pos 1)
        vlen ← read_packed32 act fuel
        reader_skip (to_int vlen) (pos 1)
        pure before)
      intentions_loop n name

    pub read_intentions : Cmd (Reader C) (Option (List ℕ))
    unfolding intentions_loop
    read_intentions = do count ← read_byte act; intentions_loop count none

-- The result where no local signature is found: `result` is set in the loop alone, so it is
-- `junk`, what the stack holds, where there is nothing to go round for.
abbrev pub not_found : ℤ → ℕ → ℤ
not_found junk zero = junk
not_found junk (suc n) = minus_enoent

-- The signatures of the entries, with their indices.
unfoldable pub signatures :
    {C V : Type 0} → List (ℤ × SampleEntry C V) → List (ℤ × Option Signature)
signatures [] = []
signatures ((i, entry) ∷ rest) = (i, entry.signature) ∷ signatures rest

module _ {C V : Type 0} (act : ReaderAction C) where
  -- In handle_sample_ref a signature with a NULL pointer for its bytes is not modelled.
  pub handle_sample_ref : ℤ → ℤ → Received → Cmd (Decoder C V) ℤ
  handle_sample_ref junk remote_index signature = do
    data_lock
    items ← gets (λ d. array_items d.local_ref)
    result ← elim (find_received signature items) [
      | none ↦ exit
      | some none ↦ pure (not_found junk (length items))
      | some (some i) ↦ (do
        modify (λ d. record d {
          remote_to_local_ref = array_set (pos 0) remote_index i d.remote_to_local_ref;
        })
        pure remote_index)
    ]
    data_unlock
    pure result

  pub handle_sample_def : ℤ → ℤ → Received → Cmd (Decoder C V) ℤ
  handle_sample_def junk remote_index signature = do
    data_lock
    items ← gets (λ d. array_items d.local)
    let found = find_received signature (signatures items) in
        elim found [
          | none ↦ exit
          | some none ↦ (do data_unlock; pure (not_found junk (length items)))
          | some (some i) ↦ (do
            modify (λ d. record d {
              local =
                  array_set nil_entry i
                    (record (array_get nil_entry i d.local) { remote_index = remote_index })
                    d.local;
              remote_to_local = array_set (pos 0) remote_index i d.remote_to_local;
            })
            data_unlock
            start_end act i remote_index false
            pure remote_index)
        ]

  -- The end of decode_sample_def_or_ref: labcomm2014_error_warning ends the process.
  warn : Option (List ℕ) → ℤ → Cmd (Decoder C V) ℤ
  warn none result = pure result
  warn (some name) result = if eqb_ℤ result minus_enoent then exit else pure result

  -- The bytes of the signature. Without memory what the first read returns is stored at NULL.
  signature_bytes : ℤ → Cmd (Decoder C V) (List ℕ)
  unfolding read_bytes
  signature_bytes length = do
    room ← gets (λ d. d.memory (to_size length))
    if room || rounds length == 0
        then on_reader (read_bytes act (rounds length))
        else (do on_reader (read_byte act); exit)

  -- decode_sample_def_or_ref, with the case of its `switch` for the argument.
  pub decode_definition : ℕ → (ℤ → Received → Cmd (Decoder C V) ℤ) → Cmd (Decoder C V) ℤ
  unfolding warn signature_bytes
  decode_definition fuel handle = do
    remote_index ← on_reader (read_packed32 act fuel)
    error ← gets (λ d. d.reader.error)
    if is_neg error then pure error else (do
      name ← on_reader (read_intentions act fuel)
      error ← gets (λ d. d.reader.error)
      if is_neg error then warn name error else (do
        size ← on_reader (read_packed32 act fuel)
        error ← gets (λ d. d.reader.error)
        if is_neg error then warn name error else (do
          bytes ← signature_bytes (to_int size)
          error ← gets (λ d. d.reader.error)
          if is_neg error then warn name error else (do
            result ←
                handle (to_int remote_index)
                  (record { name = name; size = to_int size; bytes = bytes })
            warn name result))))

  -- decode_sample_def_or_ref with LABCOMM_SAMPLE_DEF
  unfoldable pub decode_sample_def : ℕ → ℤ → Cmd (Decoder C V) ℤ
  unfolding decode_definition handle_sample_def
  decode_sample_def fuel junk = decode_definition fuel (handle_sample_def junk)

  -- decode_sample_def_or_ref with LABCOMM_SAMPLE_REF: a reference that is not known is passed over.
  pub decode_sample_ref : ℕ → ℤ → Cmd (Decoder C V) ℤ
  unfolding decode_definition handle_sample_ref
  decode_sample_ref fuel junk = decode_definition fuel (λ remote_index signature. do
    result ← handle_sample_ref junk remote_index signature
    pure (if eqb_ℤ result minus_enoent then pos tag_sample_ref else result))
