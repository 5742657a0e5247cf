-- ===== src/Inst/Names.antt =====
-- lib/Inst/Inst.cpp: the spelling of each kind in Souper's textual form, and its inverse.
use Prim.Native.String.{String}
pub mod RoundTrip
use text.Mathlib.Text.{◌==◌ as str_eq}
use souper.Prelude.{Bool, Option, none, some, List, [], ◌∷◌, if◌then◌else◌}
use souper.Inst.Kind.{Kind}

-- `Inst::getKindName`. `none` is its `llvm_unreachable`.
unfoldable pub get_kind_name : Kind → Option String
get_kind_name Kind.const = some "const"
get_kind_name Kind.untyped_const = some "untypedconst"
get_kind_name Kind.var = some "var"
get_kind_name Kind.phi = some "phi"
get_kind_name Kind.add = some "add"
get_kind_name Kind.add_nsw = some "addnsw"
get_kind_name Kind.add_nuw = some "addnuw"
get_kind_name Kind.add_nw = some "addnw"
get_kind_name Kind.sub = some "sub"
get_kind_name Kind.sub_nsw = some "subnsw"
get_kind_name Kind.sub_nuw = some "subnuw"
get_kind_name Kind.sub_nw = some "subnw"
get_kind_name Kind.mul = some "mul"
get_kind_name Kind.mul_nsw = some "mulnsw"
get_kind_name Kind.mul_nuw = some "mulnuw"
get_kind_name Kind.mul_nw = some "mulnw"
get_kind_name Kind.udiv = some "udiv"
get_kind_name Kind.sdiv = some "sdiv"
get_kind_name Kind.udiv_exact = some "udivexact"
get_kind_name Kind.sdiv_exact = some "sdivexact"
get_kind_name Kind.urem = some "urem"
get_kind_name Kind.srem = some "srem"
get_kind_name Kind.and = some "and"
get_kind_name Kind.or = some "or"
get_kind_name Kind.xor = some "xor"
get_kind_name Kind.shl = some "shl"
get_kind_name Kind.shl_nsw = some "shlnsw"
get_kind_name Kind.shl_nuw = some "shlnuw"
get_kind_name Kind.shl_nw = some "shlnw"
get_kind_name Kind.lshr = some "lshr"
get_kind_name Kind.lshr_exact = some "lshrexact"
get_kind_name Kind.ashr = some "ashr"
get_kind_name Kind.ashr_exact = some "ashrexact"
get_kind_name Kind.select = some "select"
get_kind_name Kind.zext = some "zext"
get_kind_name Kind.sext = some "sext"
get_kind_name Kind.trunc = some "trunc"
get_kind_name Kind.eq = some "eq"
get_kind_name Kind.ne = some "ne"
get_kind_name Kind.ult = some "ult"
get_kind_name Kind.slt = some "slt"
get_kind_name Kind.ule = some "ule"
get_kind_name Kind.sle = some "sle"
get_kind_name Kind.ctpop = some "ctpop"
get_kind_name Kind.bswap = some "bswap"
get_kind_name Kind.bit_reverse = some "bitreverse"
get_kind_name Kind.cttz = some "cttz"
get_kind_name Kind.ctlz = some "ctlz"
get_kind_name Kind.fshl = some "fshl"
get_kind_name Kind.fshr = some "fshr"
get_kind_name Kind.extract_value = some "extractvalue"
get_kind_name Kind.sadd_with_overflow = some "sadd.with.overflow"
get_kind_name Kind.uadd_with_overflow = some "uadd.with.overflow"
get_kind_name Kind.ssub_with_overflow = some "ssub.with.overflow"
get_kind_name Kind.usub_with_overflow = some "usub.with.overflow"
get_kind_name Kind.smul_with_overflow = some "smul.with.overflow"
get_kind_name Kind.umul_with_overflow = some "umul.with.overflow"
get_kind_name Kind.sadd_sat = some "sadd.sat"
get_kind_name Kind.uadd_sat = some "uadd.sat"
get_kind_name Kind.ssub_sat = some "ssub.sat"
get_kind_name Kind.usub_sat = some "usub.sat"
get_kind_name Kind.reserved_const = some "reservedconst"
get_kind_name Kind.reserved_inst = some "reservedinst"
get_kind_name Kind.hole = some "hole"
get_kind_name Kind.sadd_o = some "o"
get_kind_name Kind.uadd_o = some "o"
get_kind_name Kind.ssub_o = some "o"
get_kind_name Kind.usub_o = some "o"
get_kind_name Kind.smul_o = some "o"
get_kind_name Kind.umul_o = some "o"
get_kind_name Kind.freeze = some "freeze"
get_kind_name Kind.no_kind = none

-- A `StringSwitch`: the first case whose text is the name, by the given test, else the default.
unfoldable pub string_switch : (String → Bool) → List (String × Kind) → Kind → Kind
string_switch is_name [] d = d
string_switch is_name ((t, k) ∷ cases) d = if is_name t then k else string_switch is_name cases d

-- The cases of `Inst::getKind`.
unfoldable pub kind_cases : List (String × Kind)
kind_cases =
    ("var", Kind.var)
    ∷ ("phi", Kind.phi)
    ∷ ("add", Kind.add)
    ∷ ("addnsw", Kind.add_nsw)
    ∷ ("addnuw", Kind.add_nuw)
    ∷ ("addnw", Kind.add_nw)
    ∷ ("sub", Kind.sub)
    ∷ ("subnsw", Kind.sub_nsw)
    ∷ ("subnuw", Kind.sub_nuw)
    ∷ ("subnw", Kind.sub_nw)
    ∷ ("mul", Kind.mul)
    ∷ ("mulnsw", Kind.mul_nsw)
    ∷ ("mulnuw", Kind.mul_nuw)
    ∷ ("mulnw", Kind.mul_nw)
    ∷ ("udiv", Kind.udiv)
    ∷ ("sdiv", Kind.sdiv)
    ∷ ("udivexact", Kind.udiv_exact)
    ∷ ("sdivexact", Kind.sdiv_exact)
    ∷ ("urem", Kind.urem)
    ∷ ("srem", Kind.srem)
    ∷ ("and", Kind.and)
    ∷ ("or", Kind.or)
    ∷ ("xor", Kind.xor)
    ∷ ("shl", Kind.shl)
    ∷ ("shlnsw", Kind.shl_nsw)
    ∷ ("shlnuw", Kind.shl_nuw)
    ∷ ("shlnw", Kind.shl_nw)
    ∷ ("lshr", Kind.lshr)
    ∷ ("lshrexact", Kind.lshr_exact)
    ∷ ("ashr", Kind.ashr)
    ∷ ("ashrexact", Kind.ashr_exact)
    ∷ ("select", Kind.select)
    ∷ ("zext", Kind.zext)
    ∷ ("sext", Kind.sext)
    ∷ ("trunc", Kind.trunc)
    ∷ ("eq", Kind.eq)
    ∷ ("ne", Kind.ne)
    ∷ ("ult", Kind.ult)
    ∷ ("slt", Kind.slt)
    ∷ ("ule", Kind.ule)
    ∷ ("sle", Kind.sle)
    ∷ ("ctpop", Kind.ctpop)
    ∷ ("bswap", Kind.bswap)
    ∷ ("bitreverse", Kind.bit_reverse)
    ∷ ("cttz", Kind.cttz)
    ∷ ("ctlz", Kind.ctlz)
    ∷ ("fshl", Kind.fshl)
    ∷ ("fshr", Kind.fshr)
    ∷ ("sadd.with.overflow", Kind.sadd_with_overflow)
    ∷ ("uadd.with.overflow", Kind.uadd_with_overflow)
    ∷ ("ssub.with.overflow", Kind.ssub_with_overflow)
    ∷ ("usub.with.overflow", Kind.usub_with_overflow)
    ∷ ("smul.with.overflow", Kind.smul_with_overflow)
    ∷ ("umul.with.overflow", Kind.umul_with_overflow)
    ∷ ("sadd.sat", Kind.sadd_sat)
    ∷ ("uadd.sat", Kind.uadd_sat)
    ∷ ("ssub.sat", Kind.ssub_sat)
    ∷ ("usub.sat", Kind.usub_sat)
    ∷ ("extractvalue", Kind.extract_value)
    ∷ ("reservedinst", Kind.reserved_inst)
    ∷ ("hole", Kind.hole)
    ∷ ("reservedconst", Kind.reserved_const)
    ∷ ("freeze", Kind.freeze)
    ∷ []

-- `Inst::getKind`.
unfoldable pub get_kind : String → Kind
unfolding string_switch kind_cases
get_kind s = string_switch (λ t. str_eq t s) kind_cases Kind.no_kind
