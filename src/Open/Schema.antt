-- ===== src/Open/Schema.antt =====
-- `db_schema_sql` of src/db.c: what a file has when all its statements were run.
use rtcom_eventlogger.Common.{
  ◌≡◌, refl, sym, ◌∙◌, ap, Bool, true, false, not, ◌&&◌, ◌||◌, List, [], ◌∷◌, String, arith, same,
  same_iff, keep, All, ltb, if◌then◌else◌,
}
use rtcom_eventlogger.Open.{
  DbFile, SchemaStmt, set_version, create, drop, db_schema_sql, has, apply_stmt,
  required_user_version,
}

-- The names that the schema creates.
abbrev pub created : List SchemaStmt → List String
created [] = []
created (set_version n ∷ rest) = created rest
created (create name ∷ rest) = name ∷ created rest
created (drop name ∷ rest) = created rest

-- Everything that the schema creates is there.
abbrev pub HasSchema : DbFile → Type 0
HasSchema f = All (λ n. has n f.objects ≡ true) (created db_schema_sql)

-- A file whose version says that it has its schema does have it.
abbrev pub IsComplete : DbFile → Type 0
IsComplete f = ltb f.user_version required_user_version ≡ false → HasSchema f

abbrev pub apply_all : List SchemaStmt → DbFile → DbFile
apply_all [] f = f
apply_all (s ∷ rest) f = apply_all rest (apply_stmt s f)

-- Whether a name is there after some statements, from whether it was there before.
unfoldable there : List SchemaStmt → String → Bool → Bool
there [] n b = b
there (set_version v ∷ rest) n b = there rest n b
there (create m ∷ rest) n b = there rest n (b || same m n)
there (drop m ∷ rest) n b = there rest n (b && not (same m n))

has-create :
    (n m : String) (objects : List String)
    → has n (if has m objects then objects else m ∷ objects) ≡ has n objects || same m n
has-create n m objects =
    of_test (has m objects) refl (λ e. ap (λ x. has x objects) ((same_iff m n).0 e))
  where
    of_test :
        (b : Bool)
        → has m objects ≡ b
        → (same m n ≡ true → has m objects ≡ has n objects)
        → has n (if b then objects else m ∷ objects) ≡ has n objects || same m n
    of_test true e k = ground (arith, e, k)
    of_test false e k = ground arith

has-drop :
    (n m : String) (objects : List String)
    → has n (keep (λ x. not (same x m)) objects) ≡ has n objects && not (same m n)
has-drop n m [] = refl
has-drop n m (x ∷ xs) =
    of_test (same x m) refl (has-drop n m xs) (λ e. ap (λ y. same y n) ((same_iff x m).0 e))
  where
    of_test :
        (b : Bool)
        → same x m ≡ b
        → has n (keep (λ y. not (same y m)) xs) ≡ has n xs && not (same m n)
        → (same x m ≡ true → same x n ≡ same m n)
        → has n (if not b then x ∷ keep (λ y. not (same y m)) xs else keep (λ y. not (same y m)) xs)
          ≡ (same x n || has n xs) && not (same m n)
    of_test true e rest k = ground (arith, e, rest, k)
    of_test false e rest k = ground (arith, e, rest, apart)
      where
        apart : same x n ≡ true → same m n ≡ true → same x m ≡ true
        apart p q = (same_iff x m).1 ((same_iff x n).0 p ∙ sym ((same_iff m n).0 q))

has-apply_all :
    (ss : List SchemaStmt) (n : String) (f : DbFile)
    → has n (apply_all ss f).objects ≡ there ss n (has n f.objects)
unfolding there apply_stmt
has-apply_all [] n f = refl
has-apply_all (set_version v ∷ rest) n f = has-apply_all rest n (apply_stmt (set_version v) f)
has-apply_all (create m ∷ rest) n f =
    has-apply_all rest n (apply_stmt (create m) f) ∙ ap (there rest n) (has-create n m f.objects)
has-apply_all (drop m ∷ rest) n f =
    has-apply_all rest n (apply_stmt (drop m) f) ∙ ap (there rest n) (has-drop n m f.objects)

abbrev every : (String → Bool) → List String → Bool
every p [] = true
every p (x ∷ xs) = p x && every p xs

every-All :
    (p : String → Bool) (P : String → Type 0) (xs : List String)
    → every p xs ≡ true
    → ((x : String) → p x ≡ true → P x)
    → All P xs
every-All p P [] h f = tt
every-All p P (x ∷ xs) h f = (f x (ground (arith, h)), every-All p P xs (ground (arith, h)) f)

always :
    every (λ n. there db_schema_sql n true && there db_schema_sql n false) (created db_schema_sql)
    ≡ true
unfolding there db_schema_sql same
always = refl

pub apply_all-HasSchema : (f : DbFile) → HasSchema (apply_all db_schema_sql f)
apply_all-HasSchema f =
    every-All (λ n. there db_schema_sql n true && there db_schema_sql n false) _ _ always
      (λ n both.
        has-apply_all db_schema_sql n f ∙ of_both (there db_schema_sql n) (has n f.objects) both)
  where
    of_both : (p : Bool → Bool) (b : Bool) → p true && p false ≡ true → p b ≡ true
    of_both p true h = ground (arith, h)
    of_both p false h = ground (arith, h)
