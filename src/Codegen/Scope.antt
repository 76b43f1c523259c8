-- ===== src/Codegen/Scope.antt =====
-- The scopes of the C++ that src/codegen/cpp_generator.cpp emits: which temporaries a statement declares
-- and uses.
use Prim.{Unit, tt}
use olproff_fastsbc_hmr.Base.{
  ℕ, suc, ◌<◌, ◌≤◌, Option, none, some, List, [], ◌∷◌, ◌++◌, ◌≡◌, refl, ◌⊎◌, inl, inr, arith,
}
use olproff_fastsbc_hmr.Codegen.{
  Expr, temp, str_lit, Stmt, bind, get_var, get_capture, load, val_finish, get_header, get_method,
  uri_get, uri_set, add_header, set_header, delete_header, store, log, reject, match_guard,
  method_guard, Item, plain, element, RuleBlock, CppEmitter,
}

-- The temporaries in scope.
abbrev pub Has : ℕ → List ℕ → Type 0
Has n [] = ⊥
Has n (m ∷ s) = (n ≡ m) ⊎ Has n s

abbrev pub Known : List ℕ → Expr → Type 0
Known s (temp n) = Has n s
Known s (str_lit text) = Unit

-- A temporary that there may be.
abbrev pub KnownValue : List ℕ → Option Expr → Type 0
KnownValue s none = Unit
KnownValue s (some e) = Known s e

-- What a statement uses is in scope.
abbrev pub Uses : List ℕ → Stmt → Type 0
Uses s (get_header n name) = Known s name
Uses s (uri_get n hv e) = Known s hv
Uses s (uri_set n hv e nv) = Known s hv × Known s nv
Uses s (add_header name v) = Known s name × Known s v
Uses s (set_header name v) = Known s name × Known s v
Uses s (delete_header name) = Known s name
Uses s (store slot v) = Known s v
Uses s (log v) = Known s v
Uses s (reject v) = Known s v
Uses s (match_guard type subject pattern regex negated) = Known s subject
Uses s (method_guard n methods) = Has n s
Uses s _ = Unit

abbrev pub declared : Stmt → List ℕ
declared (bind n name) = n ∷ []
declared (get_var n id) = n ∷ []
declared (get_capture n i) = n ∷ []
declared (load n slot) = n ∷ []
declared (val_finish n) = n ∷ []
declared (get_header n name) = n ∷ []
declared (get_method n) = n ∷ []
declared (uri_get n hv e) = n ∷ []
declared (uri_set n hv e nv) = n ∷ []
declared _ = []

abbrev pub Fresh : List ℕ → List ℕ → Type 0
Fresh [] s = Unit
Fresh (n ∷ ns) s = (Has n s → ⊥) × Fresh ns s

-- Statements in order: each uses what is in scope, and declares what is not.
abbrev pub Scoped : List ℕ → List Stmt → Type 0
Scoped s [] = Unit
Scoped s (st ∷ ss) = Uses s st × Fresh (declared st) s × Scoped (declared st ++ s) ss

-- The scope behind statements.
abbrev pub scope_of : List Stmt → List ℕ → List ℕ
scope_of [] s = s
scope_of (st ∷ ss) s = scope_of ss (declared st ++ s)

-- The statements of a header rule's lambda; the lambda of an element rule has a scope of its own.
abbrev pub ScopedItems : List ℕ → List Item → Type 0
ScopedItems s [] = Unit
ScopedItems s (plain st ∷ items) =
    Uses s st × Fresh (declared st) s × ScopedItems (declared st ++ s) items
ScopedItems s (element title ss ∷ items) = Scoped s ss × ScopedItems s items

abbrev pub ScopedBody : List RuleBlock → Type 0
ScopedBody [] = Unit
ScopedBody (b ∷ bs) = ScopedItems [] b.items × ScopedBody bs

-- The counter is above the scope.
abbrev pub Below : ℕ → List ℕ → Type 0
Below k [] = Unit
Below k (m ∷ s) = (m < k) × Below k s

-- Statements in a scope, and the emitter behind them.
abbrev pub Emits : List ℕ → List Stmt × CppEmitter → Type 0
Emits s (ss, g) = Scoped s ss × Below g.temp_ (scope_of ss s)

-- With the expression that they give.
abbrev pub EmitsValue : List ℕ → List Stmt × Expr × CppEmitter → Type 0
EmitsValue s (ss, e, g) = Scoped s ss × Known (scope_of ss s) e × Below g.temp_ (scope_of ss s)

pub Below-weaken : (a b : ℕ) (s : List ℕ) → a ≤ b → Below a s → Below b s
Below-weaken a b [] h p = tt
Below-weaken a b (m ∷ s) h (p, q) = (omega arith, Below-weaken a b s h q)

pub Below-fresh : (k : ℕ) (s : List ℕ) → Below k s → Has k s → ⊥
Below-fresh k [] p h = h
Below-fresh k (m ∷ s) (p, q) (inl e) = omega arith
Below-fresh k (m ∷ s) (p, q) (inr h) = Below-fresh k s q h

-- A temporary that the counter gives.
pub Below-declare : (k : ℕ) (s : List ℕ) → Below k s → Below (suc k) (k ∷ s)
Below-declare k s p = (omega arith, Below-weaken k (suc k) s (omega arith) p)

Has-more : (n : ℕ) (more s : List ℕ) → Has n s → Has n (more ++ s)
Has-more n [] s h = h
Has-more n (m ∷ more) s h = inr (Has-more n more s h)

Has-scope_of : (n : ℕ) (ss : List Stmt) (s : List ℕ) → Has n s → Has n (scope_of ss s)
Has-scope_of n [] s h = h
Has-scope_of n (st ∷ ss) s h = Has-scope_of n ss (declared st ++ s) (Has-more n (declared st) s h)

-- What is known stays known.
pub Known-scope_of : (e : Expr) (ss : List Stmt) (s : List ℕ) → Known s e → Known (scope_of ss s) e
Known-scope_of (temp n) ss s h = Has-scope_of n ss s h
Known-scope_of (str_lit text) ss s h = tt

pub Known-more : (e : Expr) (n : ℕ) (s : List ℕ) → Known s e → Known (n ∷ s) e
Known-more (temp m) n s h = inr h
Known-more (str_lit text) n s h = tt

pub scope_of-append :
    (a b : List Stmt) (s : List ℕ) → scope_of (a ++ b) s ≡ scope_of b (scope_of a s)
scope_of-append [] b s = refl
scope_of-append (st ∷ a) b s = scope_of-append a b (declared st ++ s)

pub Scoped-append :
    (a b : List Stmt) (s : List ℕ) → Scoped s a → Scoped (scope_of a s) b → Scoped s (a ++ b)
Scoped-append [] b s p q = q
Scoped-append (st ∷ a) b s (u, f, p) q = (u, f, Scoped-append a b (declared st ++ s) p q)

-- Statements behind statements.
pub Emits-append :
    (a b : List Stmt) (g : CppEmitter) (s : List ℕ)
    → Scoped s a
    → Emits (scope_of a s) (b, g)
    → Emits s (a ++ b, g)
Emits-append a b g s p (q, h) = (Scoped-append a b s p q, rw (scope_of-append a b s) h)
