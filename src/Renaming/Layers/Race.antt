-- ===== src/Renaming/Layers/Race.antt =====
-- What becomes of a rename that several threads make at one time for one signature.
use labcomm_core.Common.{
  ℕ, zero, suc, ◌+◌, ◌<◌, ◌≡◌, ◌≢◌, Bool, true, Option, none, some, List, [], arith, ℤ, pos, Run,
  ok, halt, out_of_fuel, Yields, yields,
}
use labcomm_core.Signature.{Signature, name, index}
use labcomm_core.Renaming.{Entry}
use labcomm_core.Renaming.Registry.{made, first_rename, rename_new-fresh}
use labcomm_core.Renaming.Sharing.{
  base_type, with_uses, one_more, rename_new-counts, rename_free-shared,
}
use labcomm_core.Renaming.Layers.{Layer, install, set_renamed}
use labcomm_core.Renaming.Layers.Forwards.{pointer_to}
use labcomm_core.Renaming.Layers.Setting.{
  LayerView, install_there, install_own, set_renamed-step, set_renamed-known,
}

abbrev left_by : {S A : Type 0} → Run S A → S → S
left_by (ok a s') s = s'
left_by halt s = s
left_by out_of_fuel s = s

left_by-Yields :
    {S A : Type 0} {a : A} {P : S → Type 0} {r : Run S A} (s : S) → Yields a P r → P (left_by r s)
left_by-Yields s (yields p) = p

-- What `k` other threads do, which run set_renamed for a signature, one behind the other.
abbrev pub rivals :
    {N : Type 0} → (ℕ → Bool) → (List ℕ → Option (List ℕ)) → Signature → ℕ → Layer N → Layer N
rivals can rename s zero l = l
rivals can rename s (suc k) l =
    let l' = rivals can rename s k l in left_by (set_renamed can rename (λ x. x) s l') l'

module _ (i n : ℕ) (chars : List ℕ) (s : Signature) (m : ℤ → Option Entry) where
  abbrev once : ℤ → Option Entry
  once = made i n chars s m

  abbrev twice : ℤ → Option Entry
  twice = one_more i s (first_rename i n chars s) [] [] once

  once_lem : once (pos i) ≡ base_type s (with_uses 1 [] (first_rename i n chars s) [])
  once_lem = ground arith

module _ {N : Type 0} (i n : ℕ) (chars : List ℕ) (s : Signature) (m : ℤ → Option Entry)
    (can : ℕ → Bool) (memory : (k : ℕ) → can k ≡ true) (rename : List ℕ → Option (List ℕ))
    (to : rename (name s) ≡ some chars) (ix : index s ≡ pos i) (i_pos : 0 < i) where
  first_rival :
      (l : Layer N)
      → LayerView (pos i) none (once i n chars s m) (pos (n + 1)) l
      → Yields
          (some (pointer_to i n))
          (LayerView (pos i) (some (pointer_to i n)) (twice i n chars s m) (pos (n + 1)))
          (set_renamed can rename (λ x. x) s l)
  first_rival l v =
      set_renamed-step can rename i s ix i_pos (λ x. x) (pointer_to i n) (once i n chars s m)
        (twice i n chars s m) (pos (n + 1)) (pos (n + 1)) _ _ l v
        (rename_new-counts i s (first_rename i n chars s) [] [] (once i n chars s m) (pos (n + 1))
          (once_lem i n chars s m) tt can rename s l.registry memory i_pos ix tt to v.entries)
        (λ r w.
          install_own i (pointer_to i n) _ _ _
            (record { free = v.free; array = v.array; element = v.element; entries = w }))

  rivals-LayerView :
      (k : ℕ) (l : Layer N)
      → LayerView (pos i) none (once i n chars s m) (pos (n + 1)) l
      → LayerView
          (pos i)
          (some (pointer_to i n))
          (twice i n chars s m)
          (pos (n + 1))
          (rivals can rename s (suc k) l)
  rivals-LayerView zero l v = left_by-Yields l (first_rival l v)
  rivals-LayerView (suc k) l v =
      let l' = rivals can rename s (suc k) l in
      left_by-Yields l' (
        set_renamed-known can rename i s ix i_pos (λ x. x) (pointer_to i n) _ _ l'
          (rivals-LayerView k l v))

  -- The layer as it is when set_renamed takes its lock.
  settle :
      (k : ℕ) (l : Layer N)
      → LayerView (pos i) none (once i n chars s m) (pos (n + 1)) l
      → Yields
          (some (pointer_to i n))
          (LayerView (pos i) (some (pointer_to i n)) (once i n chars s m) (pos (n + 1)))
          (install (pos i) (some (pointer_to i n)) (rivals can rename s k l))
  settle zero l v = install_own i (pointer_to i n) _ _ l v
  settle (suc k) l v =
      let l' = rivals can rename s (suc k) l in
      let w = rivals-LayerView k l v in
      install_there i (pointer_to i n) _ _ (pointer_to i n) (once i n chars s m) l' w (
        rename_free-shared i s (first_rename i n chars s) [] [] (once i n chars s m) (pos (n + 1))
          (once_lem i n chars s m) tt l'.registry (omega arith) w.entries)

  -- With memory, the lock free, and nothing registered at the positive index of a signature and
  -- at the next free index, which is another positive one: however many other threads run
  -- set_renamed for the signature, one behind the other, after set_renamed has made a rename
  -- and before it takes its lock, set_renamed returns the rename with that next index, which is
  -- kept for the signature, and leaves the layer as if no other thread had run: the registry
  -- has the one rename, with a use count of 1, and the lock is free.
  pub set_renamed-race :
      (k : ℕ) (l : Layer N)
      → 0 < n
      → i ≢ n
      → m (pos i) ≡ none
      → m (pos n) ≡ none
      → LayerView (pos i) none m (pos n) l
      → Yields
          (some (pointer_to i n))
          (LayerView (pos i) (some (pointer_to i n)) (made i n chars s m) (pos (n + 1)))
          (set_renamed can rename (rivals can rename s k) s l)
  set_renamed-race k l n_pos ne no_base no_rename v =
      set_renamed-step can rename i s ix i_pos (rivals can rename s k) (pointer_to i n) m
        (once i n chars s m) (pos n) (pos (n + 1)) _ _ l v
        (rename_new-fresh can memory i n chars s m n_pos ne no_rename rename l.registry ix i_pos
          no_base to v.entries)
        (λ r w.
          settle k (record l { registry = r })
            (record { free = v.free; array = v.array; element = v.element; entries = w }))
