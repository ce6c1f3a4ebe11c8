-- ===== src/Manager/Command/Parsing.antt =====
-- the small msb command reads the volume out of the arguments that internal/msb/client.go builds.
use msb_manager.Prelude.{
  Text, codes, true, false, Option, none, some, List, [], ◌∷◌, ◌++◌, append_assoc, Bool-cases, inl,
  inr, ◌≡◌, refl, ◌∙◌, arith, text_eq, contains_byte, ℤ, is_pos, is_empty, Map, ap, ◌==◌,
}
use msb_manager.Msb.Types.{CreateOpts, VolumeMount, PortMapping, Secret}
use msb_manager.Msb.Args.{
  number_args, pair_args, port_args, secret_args, script_args, volume_args, option_args, image_args,
}
use msb_manager.Manager.Command.{volume_in, before_colon, after_colon}

-- arguments among which there is no volume
Skips : List Text → Type 0
Skips xs = (ys : List Text) → volume_in (xs ++ ys) ≡ volume_in ys

Skips-append : (xs ys : List Text) → Skips xs → Skips ys → Skips (xs ++ ys)
unfolding Skips
Skips-append xs ys h k zs = ap volume_in (append_assoc xs ys zs) ∙ (h (ys ++ zs) ∙ k zs)

number-Skips : (f : Text) (n : ℤ) → text_eq f (codes "-v") ≡ false → Skips (number_args f n)
unfolding Skips volume_in
number-Skips f n h ys = elim (Bool-cases (is_pos n)) [ inl e ↦ rw (e, h) refl | inr e ↦ rw e refl ]

pair-Skips : (m : Map Text) (ks : List Text) → Skips (pair_args (codes "-e") m ks)
unfolding Skips volume_in pair_args text_eq
pair-Skips m [] ys = refl
pair-Skips m (k ∷ ks) ys = pair-Skips m ks ys

port-Skips : (ps : List PortMapping) → Skips (port_args ps)
unfolding Skips volume_in port_args text_eq
port-Skips [] ys = refl
port-Skips (p ∷ ps) ys = port-Skips ps ys

secret-Skips : (ss : List Secret) → Skips (secret_args ss)
unfolding Skips volume_in secret_args text_eq
secret-Skips [] ys = refl
secret-Skips (s ∷ ss) ys = secret-Skips ss ys

script-Skips : (ks : List Text) → Skips (script_args ks)
unfolding Skips volume_in text_eq
script-Skips [] ys = refl
script-Skips (k ∷ ks) ys = refl

-- the value of "-v" for a volume
abbrev pub volume_value : Option VolumeMount → Option Text
volume_value none = none
volume_value (some v) = some (v.name ++ (b':' ∷ v.mount))

no_image : (o : CreateOpts) → volume_in (image_args o) ≡ none
unfolding volume_in text_eq
no_image o = elim (Bool-cases (is_empty o.snapshot)) [ inl e ↦ rw e refl | inr e ↦ rw e refl ]

volume_first :
    (v : Option VolumeMount) (xs ys : List Text)
    → Skips xs
    → volume_in ys ≡ none
    → volume_in ((volume_args v ++ xs) ++ ys) ≡ volume_value v
unfolding Skips volume_in text_eq
volume_first none xs ys h e = h ys ∙ e
volume_first (some v) xs ys h e = refl

-- among the arguments of a create stands its volume
pub volume_in-create :
    (o : CreateOpts) → volume_in (option_args o ++ image_args o) ≡ volume_value o.volume
unfolding option_args Skips
volume_in-create o =
    ap volume_in (append_assoc (number_args (codes "-c") o.cpus) _ (image_args o))
    ∙ (number-Skips (codes "-c") o.cpus (unfold text_eq in refl) _
        ∙ (ap volume_in (append_assoc (number_args (codes "-m") o.memory_mib) _ (image_args o))
            ∙ (number-Skips (codes "-m") o.memory_mib (unfold text_eq in refl) _
                ∙ volume_first o.volume _ (image_args o)
                    (Skips-append _ _ (pair-Skips o.env _) (
                      Skips-append _ _ (port-Skips o.ports)
                        (Skips-append _ _ (secret-Skips o.secrets) (script-Skips o.ssh_keys))))
                    (no_image o))))

contains_colon : (n m : Text) → contains_byte b':' (n ++ (b':' ∷ m)) ≡ true
unfolding contains_byte
contains_colon [] m = refl
contains_colon (b ∷ n) m = ground (arith, contains_colon n m)

-- a name that is read back is the one that was written
pub before_colon-append :
    (n m : Text)
    → contains_byte b':' (after_colon (n ++ (b':' ∷ m))) ≡ false
    → before_colon (n ++ (b':' ∷ m)) ≡ n
unfolding before_colon after_colon
before_colon-append [] m h = refl
before_colon-append (b ∷ n) m h = elim (Bool-cases (b == b':')) [
  | inl e ↦ absurd (cc (rw e at h, contains_colon n m))
  | inr e ↦ rw e (ap (λ s. b ∷ s) (before_colon-append n m (rw e at h)))
]
