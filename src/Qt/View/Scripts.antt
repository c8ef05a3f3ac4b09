-- ===== src/Qt/View/Scripts.antt =====
-- Scripts that the embedder runs in the page of qt5-plugin/WPEQtView.cpp, and what its callbacks hear.
pub mod Answers
pub mod Once
mod Tests
use atlantic_engine.Base.{
  ℕ, ◌+◌, Bool, true, false, not, Option, none, some, List, [], ◌∷◌, ◌++◌, if◌then◌else◌, ◌==◌,
  Bytes,
}
use atlantic_engine.Qt.View.{View}

-- What the code acquires and gives back: the data of a callback, an error, a value and a string.
pub data Resource : Type 0 where
  callback_data error js_value string : Resource

-- A script's callback is the number of the script. The argument is a string, or `none` for a variant
-- that is not set.
pub data Act : Type 0 where
  acquire release : Resource → Act
  evaluate : Bytes → ℕ → Act
  clear_exception : Act
  call : ℕ → Option Bytes → Act

-- The value of a script that has run: a string, with an exception on its context or not.
pub record Value : Type 0 where
  pub text : Option Bytes  -- jsc_value_is_string, jsc_value_to_string
  pub exception : Bool  -- jsc_context_get_exception

-- `runJavaScript`, for the script with the next number.
unfoldable pub run_javascript : Bytes → ℕ → View → List Act
run_javascript script id v =
    if not v.created then [] else acquire callback_data ∷ evaluate script id ∷ []

-- The argument of a callback.
unfoldable pub argument : Value → Option Bytes × List Act
argument value = from value.text
  where
    from : Option Bytes → Option Bytes × List Act
    from none = (none, [])
    from (some text) = (
      if value.exception then none else some text,
      acquire string
          ∷ (if value.exception
              then clear_exception ∷ release string ∷ []
              else release string ∷ []),
    )

-- `jsAsyncReadyCallback`: whether the view is still there and has a JavaScript engine, and the value;
-- without a value there is an error. The data of the callback goes last on each path.
unfoldable pub js_async_ready_callback : Bool → Bool → ℕ → Option Value → List Act
js_async_ready_callback alive engine id none =
    acquire error ∷ release error ∷ release callback_data ∷ []
js_async_ready_callback alive engine id (some value) =
    let (arg, acts) = argument value in
    acquire js_value
    ∷ (if not alive
        then release js_value ∷ release callback_data ∷ []
        else if not engine
        then release js_value ∷ release callback_data ∷ []
        else acts ++ (call id arg ∷ release js_value ∷ release callback_data ∷ []))
