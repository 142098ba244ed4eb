-- ===== src/Memory/Settings/Agrees.antt =====
-- The configuration in memory against the configuration as a value: `Config` and `Main/Options`.
use bdremote_ng.Prelude.{
  ℕ, ◌+◌, ◌≡◌, ◌≢◌, Bool, true, false, if◌then◌else◌, Bool-cases, inl, inr, Option, none, some,
  Outcome, Fault, ok, stop, no_memory, bad_memory, ◌>>=◌, arith, sym, ap, ◌∙◌,
}
use bdremote_ng.Text.{CString}
use bdremote_ng.Config
use bdremote_ng.Config.{Configuration}
use bdremote_ng.Memory.{Ptr, null, Heap, Allocator}
use bdremote_ng.Memory.Blocks.{
  Owned, Kept, Kept-trans, Points, Points-Kept, one, Stored, stored, set_val-Stored,
}
use bdremote_ng.Memory.Settings.{
  Field, release, interface_addr, remote_addr, user, group, log_filename, battery_script,
  same_field, Plain, Struct, update, State, with_plain, set_field,
}
use bdremote_ng.Memory.Settings.Fields.{owners, others, owners-update, owners-split, others_pos}

abbrev pub text_of : Configuration → Field → Option CString
text_of c release = c.release
text_of c interface_addr = c.interface_addr
text_of c remote_addr = c.remote_addr
text_of c user = c.user
text_of c group = c.group
text_of c log_filename = c.log_filename
text_of c battery_script = c.battery_script

abbrev pub plain_of : Configuration → Plain
plain_of c = record {
  listen_port = c.listen_port;
  disconnect_timeout = c.disconnect_timeout;
  repeat_rate = c.repeat_rate;
  repeat_delay = c.repeat_delay;
  lirc_namespace = c.lirc_namespace;
  event_out = c.event_out;
  debug = c.debug;
  interface_addr_set = c.interface_addr_set;
  detach = c.detach;
  log_filename_set = c.log_filename_set;
  battery_script_set = c.battery_script_set;
}

-- The members of `m` are those of `c`: each pointer is NULL or the only one to a block of its own
-- with the string. Besides these blocks there are just those that `rest` owns, as in the heap `h0`.
pub record Agrees (rest : Ptr → ℕ) (h0 : Heap) (c : Configuration) (m : State) : Type 0 where
  pub plain : m.0.plain ≡ plain_of c
  pub strings : (f : Field) → Points m.1 (m.0.string f) (text_of c f)
  pub owned : Owned m.1 (λ q. owners m.0.string q + rest q)
  pub kept : Kept rest h0 m.1

module _ {rest : Ptr → ℕ} {h0 : Heap} where
  -- A new pointer, or NULL, in one member.
  pub Agrees-update :
      (f : Field) (o : Option CString) (c c' : Configuration) (s : Struct) (h h' : Heap) (p : Ptr)
      → Agrees rest h0 c (s, h)
      → plain_of c' ≡ plain_of c
      → ((g : Field) → text_of c' g ≡ (if same_field g f then o else text_of c g))
      → Points h' p o
      → Owned h' (λ q. one p q + (others f s.string q + rest q))
      → Kept (λ q. others f s.string q + rest q) h h'
      → Agrees rest h0 c' (record s { string = update s.string f p }, h')
  Agrees-update f o c c' s h h' p v same texts new own kept = record {
    plain = v.plain ∙ sym same;
    strings = λ g. elim (Bool-cases (same_field g f)) [
      | inl here ↦ rw (texts g, here) new
      | inr elsewhere ↦
          rw (texts g, elsewhere)
            (Points-Kept (λ q. others f s.string q + rest q) (s.string g) (text_of c g) kept
              (λ ne. omega (arith, others_pos f g s.string elsewhere ne)) (v.strings g))
    ];
    owned = λ q. omega (arith, own q, owners-update f s.string p q);
    kept = Kept-trans v.kept (λ q l. kept q (omega arith));
  }

  -- what SETVAL and FREEVAL need of the heap
  pub member-Owned :
      (f : Field) (c : Configuration) (s : Struct) (h : Heap)
      → Agrees rest h0 c (s, h)
      → Owned h (λ q. one (s.string f) q + (others f s.string q + rest q))
  member-Owned f c s h v q = omega (arith, v.owned q, owners-split f s.string q)

  pub Agrees-with_plain :
      (change : Plain → Plain) (c c' : Configuration) (m : State)
      → Agrees rest h0 c m
      → plain_of c' ≡ change (plain_of c)
      → ((f : Field) → text_of c' f ≡ text_of c f)
      → Agrees rest h0 c' (with_plain change m)
  Agrees-with_plain change c c' (s, h) v same texts = record {
    plain = ap change v.plain ∙ sym same;
    strings = λ f. rw (texts f) (v.strings f);
    owned = v.owned;
    kept = v.kept;
  }

-- Both end alike, without a use of what is no block, unless malloc has no memory.
pub data Alike (a : Allocator) (rest : Ptr → ℕ) (h0 : Heap)
    : Outcome State → Outcome Configuration → Type 0 where
  both : {m : State} {c : Configuration} → Agrees rest h0 c m → Alike a rest h0 (ok m) (ok c)
  stopped : {fault : Fault} → fault ≢ bad_memory → Alike a rest h0 (stop fault) (stop fault)
  no_room :
      {r : Outcome Configuration} (g : Heap) (n : ℕ)
      → a.malloc g n ≡ null
      → Alike a rest h0 (stop no_memory) r

module _ {a : Allocator} {rest : Ptr → ℕ} {h0 : Heap} where
  pub Alike-bind :
      {r : Outcome State} {r' : Outcome Configuration} (next : State → Outcome State)
      (next' : Configuration → Outcome Configuration)
      → Alike a rest h0 r r'
      → ((m : State) (c : Configuration) → Agrees rest h0 c m → Alike a rest h0 (next m) (next' c))
      → Alike a rest h0 (r >>= next) (r' >>= next')
  Alike-bind next next' (both v) k = k _ _ v
  Alike-bind next next' (stopped safe) k = stopped safe
  Alike-bind next next' (no_room g n e) k = no_room g n e

  pub Alike-if :
      (b : Bool) {r s : Outcome State} {r' s' : Outcome Configuration}
      → Alike a rest h0 r r'
      → Alike a rest h0 s s'
      → Alike a rest h0 (if b then r else s) (if b then r' else s')
  Alike-if true x y = x
  Alike-if false x y = y

  -- SETVAL on a member
  pub set_field-Alike :
      (f : Field) (o : Option CString) (store : CString → Configuration) (c : Configuration)
      (m : State)
      → Agrees rest h0 c m
      → ((s : CString) → plain_of (store s) ≡ plain_of c)
      → ((s : CString) (g : Field)
          → text_of (store s) g ≡ (if same_field g f then some s else text_of c g))
      → Alike a rest h0 (set_field a f o m) (Config.with_string o store)
  unfolding set_field
  set_field-Alike f none store c m v same texts = stopped (λ e. cc)
  set_field-Alike f (some s) store c (t, h) v same texts = go (
      set_val-Stored a h (t.string f) s (λ q. others f t.string q + rest q)
        (member-Owned f c t h v))
    where
      go :
          {r : Outcome (Ptr × Heap)}
          → Stored a h s (λ q. others f t.string q + rest q) r
          → Alike a rest h0
              (r >>= λ (p, h1). ok (record t { string = update t.string f p }, h1))
              (ok (store s))
      go (stored p h' ne e own kept) =
          both (Agrees-update f (some s) c (store s) t h h' p v (same s) (texts s) (ne, e) own kept)
      go (Stored.no_room g n e) = no_room g n e
