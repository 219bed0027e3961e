-- ===== src/Decoder.antt =====
-- lib/c/2014/labcomm2014_decoder.c: the state of a decoder, the functions of the application on it,
-- and the decoder's use of the signature arrays.
pub mod Definitions
pub mod Samples
pub mod Packets
pub mod Registration
use labcomm_core.Common.{
  ℕ, zero, suc, ◌+◌, ◌≡◌, Bool, true, false, Option, none, some, List, [], ◌∷◌, ◌++◌, if◌then◌else◌,
  ℤ, pos, leb_ℤ, is_zero, Cmd, Run, Yields, yields, and_then, put_back, within, pure, exit, gets,
  modify, ◌>>=◌, ◌>>◌,
}
use labcomm_core.Wire.{tag_type_def, tag_type_binding}
use labcomm_core.Reader.{Reader, ReaderAction}
use labcomm_core.Signature.{Signature, get_local_index}
use labcomm_core.SignatureArray.{SignatureArray, empty, array_ref, array_get, array_set}

-- What a handler is given: the value of a sample, `struct labcomm2014_raw_type_def` or
-- `struct labcomm2014_type_binding`.
pub data Value (V : Type 0) : Type 0 where
  sample : V → Value V
  raw_type_def : (index : ℤ) → (name : Option (List ℕ)) → (signature_data : List ℕ) → Value V
  type_binding : (sample_index : ℤ) → (type_index : ℤ) → Value V

-- A `labcomm2014_decoder_function`: what it reads, and the value it calls its handler with, if it
-- does.
abbrev pub DecoderFunction : Type 0 → Type 0 → Type 0
DecoderFunction C V = Cmd (Reader C) (Option (Value V))

-- `struct sample_entry`; handlers and contexts are pointers of the application, told apart by number.
pub record SampleEntry (C V : Type 0) : Type 0 where
  pub remote_index : ℤ
  pub signature : Option Signature
  pub decode : Option (DecoderFunction C V)
  pub handler : ℕ
  pub context : ℕ

-- `struct labcomm2014_decoder` and `struct decoder`. `data_held` is the scheduler's data lock, and
-- `handled` the calls of handlers so far: handler, context and value, the last call first.
pub record Decoder (C V : Type 0) : Type 0 where
  pub reader : Reader C
  pub reader_allocated : Bool
  pub version_ok : Bool
  pub memory : ℕ → Bool
  pub local : SignatureArray (SampleEntry C V)
  pub remote_to_local : SignatureArray ℤ
  pub local_ref : SignatureArray (Option Signature)
  pub remote_to_local_ref : SignatureArray ℤ
  pub data_held : Bool
  pub handled : List (ℕ × ℕ × Value V)

module _ {C V : Type 0} where
  -- An entry with all bytes 0.
  abbrev pub nil_entry : SampleEntry C V
  nil_entry = record {
    remote_index = pos 0;
    signature = none;
    decode = none;
    handler = 0;
    context = 0;
  }

  -- The lock is not recursive: to take it while it is held blocks for ever.
  abbrev pub data_lock : Cmd (Decoder C V) (Unit {0})
  data_lock d = if d.data_held then exit d else modify (λ d. record d { data_held = true }) d

  abbrev pub data_unlock : Cmd (Decoder C V) (Unit {0})
  data_unlock = modify (λ d. record d { data_held = false })

  -- A function on the reader.
  abbrev pub on_reader : {A : Type 0} → Cmd (Reader C) A → Cmd (Decoder C V) A
  on_reader = within (λ d. d.reader) (λ r d. record d { reader = r })

  -- labcomm2014_decoder_new, with a new decoder.
  pub decoder_new : (ℕ → Bool) → Reader C → Decoder C V
  decoder_new memory r = record {
    reader = record r { buf = []; data_size = 0; count = 0; pos = 0; error = pos 0 };
    reader_allocated = false;
    version_ok = false;
    memory = memory;
    local = empty;
    remote_to_local = empty;
    local_ref = empty;
    remote_to_local_ref = empty;
    data_held = false;
    handled = [];
  }

  pub do_ref_register : Signature → Cmd (Decoder C V) ℤ
  do_ref_register s = do
    local_index ← get_local_index (some s)
    if leb_ℤ local_index (pos 0) then pure local_index else (do
      data_lock
      modify (λ d. record d { local_ref = array_ref none local_index d.local_ref })
      old ← gets (λ d. array_get none local_index d.local_ref)
      elim old [
        | some _ ↦ pure tt
        | none ↦ modify (λ d. record d {
          local_ref = array_set none local_index (some s) d.local_ref;
          remote_to_local_ref = array_set (pos 0) local_index (pos 0) d.remote_to_local_ref;
        })
      ]
      data_unlock
      pure local_index)

  pub do_index_to_sample_ref : ℤ → Cmd (Decoder C V) (Option Signature)
  do_index_to_sample_ref index = do
    data_lock
    local_index ← gets (λ d. array_get (pos 0) index d.remote_to_local_ref)
    result ←
        if is_zero local_index
        then pure none
        else gets (λ d. array_get none local_index d.local_ref)
    data_unlock
    pure result

  -- The part that the two functions labcomm2014_decoder_register_labcomm2014_type_* share.
  register_tag : ℕ → DecoderFunction C V → ℕ → ℕ → Cmd (Decoder C V) ℤ
  register_tag tag decode handler context = do
    data_lock
    modify (λ d. record d {
      local =
          array_set nil_entry (pos tag)
            (record {
              remote_index = pos tag;
              signature = none;
              decode = some decode;
              handler = handler;
              context = context;
            })
            d.local;
      remote_to_local = array_set (pos 0) (pos tag) (pos tag) d.remote_to_local;
    })
    data_unlock
    pure (pos tag)

  -- `decode` is decode_raw_type_def.
  pub register_type_def : DecoderFunction C V → ℕ → ℕ → Cmd (Decoder C V) ℤ
  unfolding register_tag
  register_type_def = register_tag tag_type_def

  -- `decode` is decode_type_binding.
  pub register_type_binding : DecoderFunction C V → ℕ → ℕ → Cmd (Decoder C V) ℤ
  unfolding register_tag
  register_type_binding = register_tag tag_type_binding

module _ {C V : Type 0} (act : ReaderAction C) where
  -- The reader's start, and its end; what they return is not looked at.
  pub start_end : ℤ → ℤ → Bool → Cmd (Decoder C V) (Unit {0})
  start_end local_index remote_index value = modify (λ d. record d {
    reader = (act.finish (act.start local_index remote_index value d.reader).0).0;
  })

  pub reader_alloc : Cmd (Decoder C V) (Unit {0})
  reader_alloc d =
      if d.reader_allocated
      then pure tt d
      else pure tt (record d { reader_allocated = true; reader = (act.alloc d.reader).0 })

  pub do_register_sample : Signature → DecoderFunction C V → ℕ → ℕ → Cmd (Decoder C V) ℤ
  unfolding start_end reader_alloc
  do_register_sample s decode handler context = do
    reader_alloc
    local_index ← get_local_index (some s)
    if leb_ℤ local_index (pos 0) then pure local_index else (do
      start_end local_index (pos 0) false
      data_lock
      modify (λ d. record d {
        local =
            array_set nil_entry local_index
              (record {
                remote_index = pos 0;
                signature = some s;
                decode = some decode;
                handler = handler;
                context = context;
              })
              d.local;
      })
      data_unlock
      pure local_index)

-- A read at the front of a command on the decoder.
pub bind_reader :
    {C V A B : Type 0} {a : A} {b : B} {P : Reader C → Type 0} {Q : Decoder C V → Type 0}
    {run : Run (Reader C) A} (d : Decoder C V) (k : A → Cmd (Decoder C V) B)
    → Yields a P run
    → ((r : Reader C) → P r → Yields b Q (k a (record d { reader = r })))
    → Yields b Q (and_then (put_back run (λ r. record d { reader = r })) k)
bind_reader d k (yields p) next = next _ p
