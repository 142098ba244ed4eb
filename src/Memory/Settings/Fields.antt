-- ===== src/Memory/Settings/Fields.antt =====
-- The pointers of the configuration as owners of blocks.
use bdremote_ng.Prelude.{ℕ, ◌+◌, ◌≡◌, ◌≢◌, ◌<◌, ◌≤◌, false, arith}
use bdremote_ng.Memory.{Ptr, null}
use bdremote_ng.Memory.Blocks.{one}
use bdremote_ng.Memory.Settings.{
  Field, release, interface_addr, remote_addr, user, group, log_filename, battery_script,
  same_field, update,
}

-- how many members own the block at `q`
abbrev pub owners : (Field → Ptr) → Ptr → ℕ
owners string q =
    one (string release) q
    + one (string interface_addr) q
    + one (string remote_addr) q
    + one (string user) q
    + one (string group) q
    + one (string log_filename) q
    + one (string battery_script) q

-- the same without the member `f`
abbrev pub others : Field → (Field → Ptr) → Ptr → ℕ
others f string q = owners (update string f null) q

pub owners-update :
    (f : Field) (string : Field → Ptr) (p q : Ptr)
    → owners (update string f p) q ≡ one p q + others f string q
owners-update release string p q = omega arith
owners-update interface_addr string p q = omega arith
owners-update remote_addr string p q = omega arith
owners-update user string p q = omega arith
owners-update group string p q = omega arith
owners-update log_filename string p q = omega arith
owners-update battery_script string p q = omega arith

pub owners-split :
    (f : Field) (string : Field → Ptr) (q : Ptr)
    → owners string q ≡ one (string f) q + others f string q
owners-split release string q = omega arith
owners-split interface_addr string q = omega arith
owners-split remote_addr string q = omega arith
owners-split user string q = omega arith
owners-split group string q = omega arith
owners-split log_filename string q = omega arith
owners-split battery_script string q = omega arith

pub one-le-owners :
    (g : Field) (string : Field → Ptr) (q : Ptr) → one (string g) q ≤ owners string q
one-le-owners release string q = omega arith
one-le-owners interface_addr string q = omega arith
one-le-owners remote_addr string q = omega arith
one-le-owners user string q = omega arith
one-le-owners group string q = omega arith
one-le-owners log_filename string q = omega arith
one-le-owners battery_script string q = omega arith

-- Another member than `f` is among the others.
pub others_pos :
    (f g : Field) (string : Field → Ptr)
    → same_field g f ≡ false
    → string g ≢ null
    → 0 < others f string (string g)
others_pos f g string e ne =
    let le = one-le-owners g (update string f null) (string g) in
    let there : one (string g) (string g) ≡ 1 = ground arith in omega (arith, rw e at le)

-- Each member, one by one.
pub each_field :
    (P : Field → Type 0)
    → P release
    → P interface_addr
    → P remote_addr
    → P user
    → P group
    → P log_filename
    → P battery_script
    → (f : Field) → P f
each_field P r i a u g l b release = r
each_field P r i a u g l b interface_addr = i
each_field P r i a u g l b remote_addr = a
each_field P r i a u g l b user = u
each_field P r i a u g l b group = g
each_field P r i a u g l b log_filename = l
each_field P r i a u g l b battery_script = b
