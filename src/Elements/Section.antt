-- ===== src/Elements/Section.antt =====
-- The parts of a state that follow a mask: written, read and put into the state only if the mask says so.
use gta_psp_multiplayer.Prelude.{
  ℕ, Bool, true, false, List, [], ◌++◌, ◌≡◌, refl, sym, subst, if◌then◌else◌,
}
use gta_psp_multiplayer.Sync.Reader.{Reader, ◌>>=◌, return}
use gta_psp_multiplayer.Sync.Reader.Decode.{Reads->>=, Reads-return, Reads-map}
use gta_psp_multiplayer.Sync.Writer.{Writer, ◌>>◌}
use gta_psp_multiplayer.Sync.Writer.Encode.{Appends->>, Appends-nothing}
use gta_psp_multiplayer.Sync.Codec.{Carries}

-- `if (mask & BIT) Write...`
abbrev pub when : Bool → Writer → Writer
when b f w = if b then f w else w

-- `if (mask & BIT) sync.field = Read...`
abbrev pub patch : {A : Type 0} → Bool → (A → Reader A) → A → Reader A
patch b f a = if b then f a else return a

-- What `write` puts into a stream, whatever its bytes are, is read back as `a`.
pub record Sends {A : Type 0} (write : Writer) (read : Reader A) (a : A) : Type 0 where
  pub bytes : List ℕ
  pub carries : Carries write read a bytes

pub sends :
    {A : Type 0} {w : Writer} {m : Reader A} {a : A} {xs : List ℕ} → Carries w m a xs → Sends w m a
sends {xs} c = record { bytes = xs; carries = c }

pub Sends-nothing : {A : Type 0} (a : A) → Sends (λ w. w) (return a) a
Sends-nothing a = record {
  bytes = [];
  carries = record { appends = Appends-nothing; reads = Reads-return refl };
}

pub Sends-subst :
    {A : Type 0} {w : Writer} {m : Reader A} {a b : A} → a ≡ b → Sends w m a → Sends w m b
Sends-subst {w} {m} e s = subst (Sends w m) e s

pub Sends->> :
    {A B : Type 0} {v w : Writer} {m : Reader A} (f : A → Reader B) {a : A} {b : B}
    → Sends v m a
    → Sends w (f a) b
    → Sends (v >> w) (m >>= f) b
Sends->> f c d = record {
  bytes = c.bytes ++ d.bytes;
  carries = record {
    appends = Appends->> c.carries.appends d.carries.appends;
    reads = Reads->>= f c.carries.reads d.carries.reads;
  };
}

pub Sends-map :
    {A B : Type 0} {w : Writer} {m : Reader A} {a : A} (g : A → B)
    → Sends w m a
    → Sends w (m >>= λ x. return (g x)) (g a)
Sends-map g c = record {
  bytes = c.bytes;
  carries = record { appends = c.carries.appends; reads = Reads-map g c.carries.reads };
}

pub Sends-when :
    {A : Type 0} {w : Writer} (f : A → Reader A) {a b : A} (t : Bool)
    → Sends w (f a) b
    → Sends (when t w) (patch t f a) (if t then b else a)
Sends-when f true c = c
Sends-when f {a} false c = Sends-nothing a

-- A part of a state that is one field: `put` writes the field, and the old value leaves the state alone.
pub Sends-part :
    {A F : Type 0} {w : Writer} {m : Reader F} {x : F} (put : F → A → A) {a : A} (old : F)
    (t : Bool)
    → put old a ≡ a
    → Sends w m x
    → Sends (when t w) (patch t (λ b. m >>= λ v. return (put v b)) a) (put (if t then x else old) a)
Sends-part put {a} old true e s = Sends-map (λ v. put v a) s
Sends-part put {a} old false e s = Sends-subst (sym e) (Sends-nothing a)
