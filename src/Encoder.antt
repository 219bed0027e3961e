-- ===== src/Encoder.antt =====
-- lib/c/2014/labcomm2014_encoder.c. An encoder registers samples, references and types, once each,
-- and sends their definitions and the samples themselves as packets.
pub mod Packets
pub mod Registers
use labcomm_core.Common.{
  ℕ, zero, suc, ◌+◌, ◌≡◌, Bool, true, false, ◌&&◌, ◌||◌, Option, none, some, List, [], ◌∷◌, ◌==◌,
  if◌then◌else◌, length, ℤ, pos, leb_ℤ, eqb_ℤ, is_nonzero, to_unsigned, minus_einval,
  minus_ealready, Cmd, Run, ok, and_then, on_end, within, pure, exit, gets, modify, ◌>>=◌, ◌>>◌,
}
use labcomm_core.Wire.{
  tag_version, tag_sample_def, tag_sample_ref, tag_type_def, tag_type_binding, bind_self,
}
use labcomm_core.Writer.{
  Writer, WriterAction, put_byte_unchecked, write_packed32, write_string, size_packed32,
  size_string,
}
use labcomm_core.Signature.{Signature, name, flat, size, get_local_index, map_signature}
use labcomm_core.SignatureArray.{SignatureArray, empty, array_ref, array_get, array_put}

-- `struct encoder`. The arrays hold 0 or 1. `writer_held` is the scheduler's writer lock.
pub record Encoder (C : Type 0) : Type 0 where
  pub writer : Writer C
  pub registered : SignatureArray ℕ
  pub sample_ref : SignatureArray ℕ
  pub typedefs : SignatureArray ℕ
  pub writer_held : Bool

-- "LabComm2014"
abbrev pub current_version : List ℕ
current_version = b'L' ∷ b'a' ∷ b'b' ∷ b'C' ∷ b'o' ∷ b'm' ∷ b'm' ∷ b'2' ∷ b'0' ∷ b'1' ∷ b'4' ∷ []

-- TODO_sizeof_intentions
unfoldable pub sizeof_intentions : Signature → ℕ
sizeof_intentions s = size_string (name s) + 2

module _ {C : Type 0} where
  -- The lock is not recursive: to take it while it is held blocks for ever.
  abbrev pub writer_lock : Cmd (Encoder C) (Unit {0})
  writer_lock e = if e.writer_held then exit e else modify (λ e. record e { writer_held = true }) e

  abbrev pub writer_unlock : Cmd (Encoder C) (Unit {0})
  writer_unlock = modify (λ e. record e { writer_held = false })

  -- A call of a function on the writer.
  abbrev pub on_writer : (Writer C → Writer C × ℤ) → Cmd (Encoder C) ℤ
  on_writer f e = pure (f e.writer).1 (record e { writer = (f e.writer).0 })

module _ {C : Type 0} (act : WriterAction C) where
  -- TODO_encode_intentions: one intention, whose key is the empty string and whose value is the name.
  pub encode_intentions : Signature → Writer C → Writer C × ℤ
  encode_intentions s w =
      let w1 = (write_packed32 act 1 w).0 in
      let w2 = (write_packed32 act 0 w1).0 in
      let w3 = (write_string act (name s) w2).0 in (w3, w3.error)

  -- The loop over `signature->signature[i]`.
  pub write_flat : List ℕ → Writer C → Writer C
  write_flat [] w = w
  write_flat (b ∷ bs) w = write_flat bs (put_byte_unchecked act b w)

  -- What do_sample_register and do_ref_register send once the packet is started, with their tags.
  pub write_definition : ℕ → ℤ → Signature → Writer C → Writer C × ℤ
  unfolding encode_intentions write_flat
  write_definition tag i s w =
      let len =
        size_packed32 (to_unsigned i) + sizeof_intentions s + size_packed32 (size s) + size s in
      let w1 = (write_packed32 act tag w).0 in
      let w2 = (write_packed32 act len w1).0 in
      let w3 = (write_packed32 act (to_unsigned i) w2).0 in
      let w4 = (encode_intentions s w3).0 in
      let w5 = (write_packed32 act (size s) w4).0 in
      let w6 = write_flat (flat s) w5 in let w7 = (act.finish w6).0 in (w7, w7.error)

  -- The part of the register functions behind `*done = 1`: start, and send unless the start says
  -- otherwise (-EALREADY: somebody else has sent it).
  pub start_and : ℤ → (Writer C → Writer C × ℤ) → Cmd (Encoder C) ℤ
  start_and i send = do
    err ← on_writer (act.start i false)
    if eqb_ℤ err minus_ealready
        then pure (pos 0)
        else if is_nonzero err
        then pure err
        else on_writer send

  pub do_sample_register : Signature → Cmd (Encoder C) ℤ
  unfolding start_and write_definition
  do_sample_register s = do
    i ← get_local_index (some s)
    writer_lock
    result ← if leb_ℤ i (pos 0) then pure minus_einval else (do
      modify (λ e. record e { registered = array_ref 0 i e.registered })
      done ← gets (λ e. array_get 0 i e.registered)
      if is_nonzero (pos done) then pure minus_einval else (do
        modify (λ e. record e { registered = array_put i 1 e.registered })
        start_and i (write_definition tag_sample_def i s)))
    writer_unlock
    pure result

  pub do_ref_register : Signature → Cmd (Encoder C) ℤ
  unfolding start_and write_definition
  do_ref_register s = do
    i ← get_local_index (some s)
    writer_lock
    result ← if leb_ℤ i (pos 0) then pure minus_einval else (do
      modify (λ e. record e { sample_ref = array_ref 0 i e.sample_ref })
      done ← gets (λ e. array_get 0 i e.sample_ref)
      if is_nonzero (pos done) then pure minus_einval else (do
        modify (λ e. record e { sample_ref = array_put i 1 e.sample_ref })
        start_and i (write_definition tag_sample_ref i s)))
    writer_unlock
    pure result

  -- A generated function `encode`, applied to the value, and what `encoded_size` says of it.
  pub write_sample : ℤ → ℕ → (Writer C → Writer C × ℤ) → Writer C → Writer C × ℤ
  write_sample i len encode w =
      let w1 = (write_packed32 act (to_unsigned i) w).0 in
      let (w2, result) = write_packed32 act len w1 in
      if is_nonzero result then (w2, result) else encode w2

  pub do_encode : Signature → ℕ → (Writer C → Writer C × ℤ) → Cmd (Encoder C) ℤ
  unfolding write_sample
  do_encode s len encode = do
    i ← get_local_index (some s)
    writer_lock
    known ← gets (λ e. array_get 0 i e.registered)
    result ← if known == 0 then pure minus_einval else (do
      err ← on_writer (act.start i true)
      if eqb_ℤ err minus_ealready then pure (pos 0) else (do
        result ← if is_nonzero err then pure err else on_writer (write_sample i len encode)
        on_writer act.finish
        pure result))
    writer_unlock
    pure result

  -- The caller holds the writer lock.
  pub do_sample_ref_to_index : Option Signature → Cmd (Encoder C) ℤ
  do_sample_ref_to_index none = pure (pos 0)
  do_sample_ref_to_index (some s) = do
    i ← get_local_index (some s)
    known ← gets (λ e. array_get 0 i e.sample_ref)
    pure (if known == 0 then pos 0 else i)

  -- One step of a walk: a byte is stored, and of a reference the index is written.
  pub write_sig_tree_byte : ℕ → Option Signature → Cmd (Writer C) (Unit {0})
  write_sig_tree_byte b none = modify (put_byte_unchecked act b)
  write_sig_tree_byte b (some s) = do
    i ← get_local_index (some s)
    modify (λ w. (write_packed32 act (to_unsigned i) w).0)

-- The steps of a walk, one after the other, until one ends the process.
abbrev pub walk_step :
    {S : Type 0}
    → (ℕ → Option Signature → Cmd S (Unit {0}))
    → ℕ
    → Option Signature
    → Run S (Unit {0})
    → Run S (Unit {0})
walk_step f b s r = and_then r (λ _. f b s)

pub sig_size : ℕ → Option Signature → Cmd ℕ (Unit {0})
sig_size b none = modify (λ result. result + 1)
sig_size b (some s) = do
  i ← get_local_index (some s)
  modify (λ result. result + size_packed32 (to_unsigned i))

-- calc_sig_encoded_size, as the run that ends with the size for its state.
pub calc_sig_encoded_size : Signature → Run ℕ (Unit {0})
unfolding sig_size
calc_sig_encoded_size s = map_signature (walk_step sig_size) false s (ok tt 0)

module _ {C : Type 0} (act : WriterAction C) where
  -- do_write_signature
  pub do_write_signature : Signature → Bool → Cmd (Writer C) (Unit {0})
  unfolding write_sig_tree_byte
  do_write_signature s flatten w =
      map_signature (walk_step (write_sig_tree_byte act)) flatten s (ok tt w)

  -- What internal_reg_type sends once the packet is started.
  pub write_type_def : ℤ → Signature → Cmd (Writer C) ℤ
  unfolding calc_sig_encoded_size do_write_signature encode_intentions
  write_type_def i s w = on_end (calc_sig_encoded_size s) (λ sig_len.
      let len =
        size_packed32 (to_unsigned i) + sizeof_intentions s + size_packed32 sig_len + sig_len in
      let w1 = (write_packed32 act tag_type_def w).0 in
      let w2 = (write_packed32 act len w1).0 in
      let w3 = (write_packed32 act (to_unsigned i) w2).0 in
      let w4 = (encode_intentions act s w3).0 in
      let w5 = (write_packed32 act sig_len w4).0 in
      and_then (do_write_signature s false w5)
        (λ _ w6. ok (act.finish w6).0.error (act.finish w6).0))

  -- internal_reg_type with `flatten` FALSE, which is do_type_register.
  pub do_type_register : Signature → Cmd (Encoder C) ℤ
  unfolding write_type_def
  do_type_register s = do
    i ← get_local_index (some s)
    writer_lock
    result ← if leb_ℤ i (pos 0) then pure minus_einval else (do
      modify (λ e. record e { typedefs = array_ref 0 i e.typedefs })
      done ← gets (λ e. array_get 0 i e.typedefs)
      if is_nonzero (pos done) then pure minus_einval else (do
        modify (λ e. record e { typedefs = array_put i 1 e.typedefs })
        err ← on_writer (act.start i false)
        if eqb_ℤ err minus_ealready
            then pure (pos 0)
            else if is_nonzero err
            then pure err
            else within (λ e. e.writer) (λ w e. record e { writer = w }) (write_type_def i s)))
    writer_unlock
    pure result

  -- What do_type_bind sends once the packet is started.
  pub write_binding : ℤ → ℤ → Writer C → Writer C × ℤ
  write_binding sindex tindex w =
      let len = size_packed32 (to_unsigned sindex) + size_packed32 (to_unsigned tindex) in
      let w1 = (write_packed32 act tag_type_binding w).0 in
      let w2 = (write_packed32 act len w1).0 in
      let w3 = (write_packed32 act (to_unsigned sindex) w2).0 in
      let w4 = (write_packed32 act (to_unsigned tindex) w3).0 in
      let w5 = (act.finish w4).0 in (w5, w5.error)

  -- The type index of a signature is its local index (labcomm2014_get_local_type_index).
  pub do_type_bind : Signature → Bool → Cmd (Encoder C) ℤ
  unfolding write_binding start_and
  do_type_bind s has_deps = do
    sindex ← get_local_index (some s)
    tindex ← if has_deps then get_local_index (some s) else pure (pos bind_self)
    writer_lock
    result ←
        if leb_ℤ sindex (pos 0) || (has_deps && leb_ℤ tindex (pos 0))
        then pure minus_einval
        else start_and act (pos tag_type_binding) (write_binding sindex tindex)
    writer_unlock
    pure result

  -- The version packet of internal_encoder_new; what the calls return is not looked at.
  pub write_version : Writer C → Writer C
  write_version w =
      let w1 = (act.start (pos tag_version) true w).0 in
      let w2 = (write_packed32 act tag_version w1).0 in
      let w3 = (write_packed32 act (size_string current_version) w2).0 in
      let w4 = (write_string act current_version w3).0 in (act.finish w4).0

  -- internal_encoder_new with a new encoder; `output_ver` is its last argument.
  pub encoder_new : Bool → Writer C → Encoder C
  unfolding write_version
  encoder_new output_ver w =
      let w0 = record w { buf = []; data_size = 0; count = 0; pos = 0; error = pos 0 } in
      let w1 = (act.alloc w0).0 in
      record {
        writer = if output_ver then write_version w1 else w1;
        registered = empty;
        sample_ref = empty;
        typedefs = empty;
        writer_held = false;
      }
