-- ===== src/Python.antt =====
-- What the program uses of Python: the values that `json.loads` builds, their truth, `str` and `int`.
mod Values
pub mod Conversions
pub mod Ascii
pub mod Urls
pub use Values.{
  ℤ, pos, negsuc, Json, null, bool, int, float, str, list, dict, Items, nil, cons, Fields, end,
  field, elements, Result, ok, raised, ◌>>=◌, Runtime,
}
unfoldable pub use Values.{get, has_key, truthy, or_py}
