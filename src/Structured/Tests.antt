-- ===== src/Structured/Tests.antt =====
-- A plan's schema, and documents that meet and miss it.
use prism_harness_py.Structured.Verdict.{schema_problems-nil_iff}
use prism_harness_py.Structured.Conforms.{Conforms}
use prism_harness_py.Structured.Check.{
  undeclared, wrong_type, size, matches, undeclared_names, missing_names, check, schema_problems,
}
use prism_harness_py.Value.{bool, int, nil, cons, end, arr, str, field, obj, Fields, Value}
use prism_harness_py.Python.{bytes, Python}
use prism_harness_py.Prelude.{refl, [], ◌∷◌, ◌≡◌, ◌↔◌, true, false}
use prism_harness_py.Prelude.Int.{pos}

abbrev plain_python : Python
plain_python = record { show = λ v. "0"; json = λ v. ""; b64decode = λ s. bytes 1 }

abbrev step_schema : Fields
step_schema = field "type" (str "string") end

abbrev plan_schema : Fields
plan_schema = field "type" (str "object") (
    field "required" (arr (cons (str "steps") nil)) (
      field "properties"
        (obj (
          field "steps" (obj (field "type" (str "array") (field "items" (obj step_schema) end)))
            end))
        (field "additionalProperties" (bool false) end)))

abbrev plan : Value
plan = obj (field "steps" (arr (cons (str "look") (cons (str "leap") nil))) end)

abbrev number_plan : Value
number_plan = obj (field "steps" (arr (cons (int (pos 1)) nil)) (field "note" (bool true) end))

checks-plan : schema_problems ⦃py = plain_python⦄ plan_schema plan "plan" ≡ []
unfolding schema_problems check missing_names undeclared_names matches size
checks-plan = refl

checks-number_plan :
    schema_problems ⦃py = plain_python⦄ plan_schema number_plan "plan"
    ≡ wrong_type "plan.steps[0]" (int (pos 1)) ("string" ∷ []) ∷ (undeclared "plan.note" ∷ [])
unfolding schema_problems check missing_names undeclared_names matches size
checks-number_plan = refl

verdict_example :
    (schema_problems ⦃py = plain_python⦄ plan_schema plan "plan" ≡ []) ↔ Conforms plan_schema plan
verdict_example = schema_problems-nil_iff ⦃py = plain_python⦄ plan_schema plan "plan"
