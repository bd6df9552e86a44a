-- ===== src/Mem/Hooks.antt =====
-- The listeners that mem.go puts on the allocation functions, and the choice among them by name.
use Prim.Native.String.{String}
use text.Mathlib.Text.{◌==◌ as str_eq}
use wzprof.Base.{
  ℕ, ◌+◌, ◌*◌, ◌%◌, ◌^◌, List, Bool, Option, none, some, ◌==◌, if◌then◌else◌, Outcome, ok, or_panic,
  ◌>>=◌, get_elem?,
}
use wzprof.Base.Words.{add32, mul32}
use wzprof.Trace.{StackFrame, StackTrace, no_trace, make_stack_trace}
use wzprof.Mem.{MemoryProfiler, observe_alloc, observe_free}

-- The types of listener.
pub data Hook : Type 0 where
  malloc calloc realloc free go_runtime_mallocgc : Hook

abbrev is : String → String → Bool
is name wanted = str_eq name wanted

-- The switch for CPython 3.11.
python_hook : String → Option Hook
python_hook name =
    if is name "PyMem_RawMalloc"
    then some malloc
    else if is name "PyMem_RawCalloc"
    then some calloc
    else if is name "PyMem_RawRealloc"
    then some realloc
    else if is name "PyMem_RawFree"
    then some free
    else if is name "PyMem_Malloc"
    then some malloc
    else if is name "PyMem_Calloc"
    then some calloc
    else if is name "PyMem_Realloc"
    then some realloc
    else if is name "PyMem_Free"
    then some free
    else if is name "PyObject_Malloc"
    then some malloc
    else if is name "PyObject_Calloc"
    then some calloc
    else if is name "PyObject_Realloc"
    then some realloc
    else if is name "PyObject_Free"
    then some free
    else none

-- The switch for the other languages.
native_hook : String → Option Hook
native_hook name =
    if is name "malloc"
    then some malloc
    else if is name "calloc"
    then some calloc
    else if is name "realloc"
    then some realloc
    else if is name "free"
    then some free
    else if is name "runtime.mallocgc"
    then some go_runtime_mallocgc
    else if is name "runtime.alloc"
    then some malloc
    else none

-- `NewFunctionListener`; the flag says that the guest is CPython 3.11.
unfoldable pub new_function_listener : Bool → String → Option Hook
unfolding python_hook native_hook
new_function_listener python name = if python then python_hook name else native_hook name

-- The fields of the five listener types, which each use some of.
pub record HookState : Type 0 where
  pub addr : ℕ
  pub count : ℕ
  pub size : ℕ
  pub stack : StackTrace

abbrev pub fresh_hook : HookState
fresh_hook = record { addr = 0; count = 0; size = 0; stack = no_trace }

-- `api.DecodeU32(params[i])`.
abbrev pub param : List ℕ → ℕ → Outcome ℕ
param params i = or_panic (get_elem? params i) >>= (λ v. ok (v % 2 ^ 32))

-- `binary.LittleEndian.Uint32`, which panics on fewer than four bytes.
unfoldable pub le_u32 : List ℕ → Outcome ℕ
le_u32 bytes = do
  b₀ ← or_panic (get_elem? bytes 0)
  b₁ ← or_panic (get_elem? bytes 1)
  b₂ ← or_panic (get_elem? bytes 2)
  b₃ ← or_panic (get_elem? bytes 3)
  ok (b₀ + b₁ * 2 ^ 8 + b₂ * 2 ^ 16 + b₃ * 2 ^ 24)

-- What `goRuntimeMallocgcProfiler.Before` sees of the module: its first global and its memory.
pub record Guest : Type 0 where
  pub global_zero : ℕ
  pub read : ℕ → ℕ → Option (List ℕ)

module _ (hash : List ℕ → ℕ) where
  malloc_before : List ℕ → List StackFrame → HookState → Outcome HookState
  malloc_before params frames h = do
    size ← param params 0
    ok (record h { size = size; stack = make_stack_trace hash h.stack frames })

  calloc_before : List ℕ → List StackFrame → HookState → Outcome HookState
  calloc_before params frames h = do
    count ← param params 0
    size ← param params 1
    ok (record h { count = count; size = size; stack = make_stack_trace hash h.stack frames })

  realloc_before : List ℕ → List StackFrame → HookState → Outcome HookState
  realloc_before params frames h = do
    addr ← param params 0
    size ← param params 1
    ok (record h { addr = addr; size = size; stack = make_stack_trace hash h.stack frames })

  free_before : List ℕ → HookState → Outcome HookState
  free_before params h = do addr ← param params 0; ok (record h { addr = addr })

  mallocgc_sized : Option (List ℕ) → List StackFrame → HookState → Outcome HookState
  mallocgc_sized none frames h = ok (record h { size = 0 })
  mallocgc_sized (some bytes) frames h = do
    size ← le_u32 bytes
    ok (record h { size = size; stack = make_stack_trace hash h.stack frames })

  -- The size is the first argument on the Go stack, above the return address.
  mallocgc_before : Guest → List StackFrame → HookState → Outcome HookState
  unfolding mallocgc_sized
  mallocgc_before guest frames h =
      mallocgc_sized (guest.read (add32 (guest.global_zero % 2 ^ 32) 8) 8) frames h

  -- `Before` of each type.
  unfoldable pub before : Hook → Guest → List ℕ → List StackFrame → HookState → Outcome HookState
  unfolding malloc_before calloc_before realloc_before free_before mallocgc_before
  before malloc guest params frames h = malloc_before params frames h
  before calloc guest params frames h = calloc_before params frames h
  before realloc guest params frames h = realloc_before params frames h
  before free guest params frames h = free_before params h
  before go_runtime_mallocgc guest params frames h = mallocgc_before guest frames h

malloc_after : List ℕ → HookState → MemoryProfiler → Outcome MemoryProfiler
malloc_after results h p = do addr ← param results 0; ok (observe_alloc addr h.size h.stack p)

calloc_after : List ℕ → HookState → MemoryProfiler → Outcome MemoryProfiler
calloc_after results h p = do
  addr ← param results 0
  ok (observe_alloc addr (mul32 h.count h.size) h.stack p)

realloc_after : List ℕ → HookState → MemoryProfiler → Outcome MemoryProfiler
realloc_after results h p = do
  let freed = observe_free h.addr p
  addr ← param results 0
  ok (observe_alloc addr h.size h.stack freed)

free_after : HookState → MemoryProfiler → Outcome MemoryProfiler
free_after h p = ok (observe_free h.addr p)

-- The returned pointer is not known: the address is 0.
mallocgc_after : HookState → MemoryProfiler → Outcome MemoryProfiler
mallocgc_after h p = ok (if h.size == 0 then p else observe_alloc 0 h.size h.stack p)

-- `After` of each type.
unfoldable pub after : Hook → List ℕ → HookState → MemoryProfiler → Outcome MemoryProfiler
unfolding malloc_after calloc_after realloc_after free_after mallocgc_after
after malloc results h p = malloc_after results h p
after calloc results h p = calloc_after results h p
after realloc results h p = realloc_after results h p
after free results h p = free_after h p
after go_runtime_mallocgc results h p = mallocgc_after h p

-- `Abort` of each type.
unfoldable pub abort : Hook → HookState → MemoryProfiler → Outcome MemoryProfiler
unfolding free_after mallocgc_after
abort malloc h p = ok p
abort calloc h p = ok p
abort realloc h p = ok p
abort free h p = free_after h p
abort go_runtime_mallocgc h p = mallocgc_after h p
