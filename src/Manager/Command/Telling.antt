-- ===== src/Manager/Command/Telling.antt =====
-- what the small msb command writes is read back by internal/msb/parse.go as what runs.
use msb_manager.Prelude.{
  Text, codes, false, List, [], ◌∷◌, ◌++◌, map, suc, is_empty, text_eq, text_eq_refl, Bool-cases,
  inl, inr, ◌≡◌, refl, ◌∙◌, ap,
}
use msb_manager.Lock.{has_name}
use msb_manager.Msb.Types
use msb_manager.Msb.Types.{volume_names_of}
use msb_manager.Msb.Parse.{to_sandbox, to_mount}
use msb_manager.Manager.Collecting.{lists}
use msb_manager.Manager.Command.{encode, decode, push, row, mount_row}

decode_name : (n s : Text) → decode (map suc n ++ (0 ∷ s)) ≡ n ∷ decode s
unfolding decode
decode_name [] s = refl
decode_name (b ∷ n) s = ap (push b) (decode_name n s)

pub decode-encode : (ns : List Text) → decode (encode ns) ≡ ns
unfolding encode
decode-encode [] = unfold decode in refl
decode-encode (n ∷ ns) = decode_name n (encode ns) ∙ ap (λ l. n ∷ l) (decode-encode ns)

-- the rows list what runs
pub lists-rows : (n : Text) (ns : List Text) → has_name n ns ≡ lists n (map to_sandbox (map row ns))
unfolding to_sandbox
lists-rows n [] = refl
lists-rows n (m ∷ ns) = rw (lists-rows n ns, text_eq_refl (codes "Running")) refl

volume_names_of-row :
    (v : Text) (vs : List Text)
    → is_empty v ≡ false
    → volume_names_of (map to_mount (map mount_row (v ∷ vs)))
      ≡ v ∷ volume_names_of (map to_mount (map mount_row vs))
unfolding volume_names_of to_mount
volume_names_of-row v vs e = rw (text_eq_refl (codes "Named"), e) refl

-- the rows of the volumes mount the volumes
pub volume_names_of-rows :
    (ms : List Types.Mount)
    → volume_names_of (map to_mount (map mount_row (volume_names_of ms))) ≡ volume_names_of ms
unfolding volume_names_of to_mount
volume_names_of-rows [] = refl
volume_names_of-rows (m ∷ ms) = elim (Bool-cases (text_eq m.kind (codes "Named"))) [
  | inr k ↦ rw k (volume_names_of-rows ms)
  | inl k ↦ elim (Bool-cases (is_empty m.name)) [
    | inl e ↦ rw (k, e) (volume_names_of-rows ms)
    | inr e ↦
        rw (k, e)
          (volume_names_of-row m.name (volume_names_of ms) e
            ∙ ap (λ l. m.name ∷ l) (volume_names_of-rows ms))
  ]
]
